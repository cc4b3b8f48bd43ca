-- ===== src/Wireguard/Keys.antt =====
-- `setupKeys` and `writePrivateKey` of wireguard/utils.go: the private key of the device and its file.
use wgxdp.Base.{
  ℕ, String, ◌<>◌, Bool, true, false, Option, none, some, List, ◌==◌, string_eq, if◌then◌else◌,
}
use wgxdp.Act.{Act, Outcome, err, pure, fail, ask, reads, attempt, on_error, ◌>>=◌, ◌>>◌}
use wgxdp.Sql.{wrap_error}
use wgxdp.Files.{
  FileError, not_exist, file_error_text, stat, read_file, split_dir, mkdir_all, create, chmod,
  write_string,
}

-- The three keys of `DeviceAttrs`.
pub record Keys : Type 0 where
  pub private_key : List ℕ
  pub public_key : List ℕ
  pub psk : Option (List ℕ)

unfoldable pub write_private_key : String → String → Act String (Unit {0})
unfolding mkdir_all create chmod write_string ◌>>=◌
write_private_key path content = do
  mkdir_all (split_dir path)
  create path
  chmod path 256
  write_string path content

unfoldable pub some_key : String → Option (List ℕ) → Act String (List ℕ)
some_key e none = fail e
some_key e (some key) = pure key

unfoldable pub save_key : String → List ℕ → Act String (Unit {0})
unfolding write_private_key ◌>>=◌
save_key key_file key = do
  text ← reads (λ env. env.show_key key)
  wrap_error "could not write key file: " (write_private_key key_file text)

unfoldable pub generate_key : String → Act String (List ℕ)
unfolding some_key save_key ◌>>=◌
generate_key key_file = do
  drawn ← ask (λ env. env.random_key)
  key ← some_key "could not generate private key: wgtypes: failed to read random bytes" drawn
  save_key key_file key
  pure key

unfoldable pub load_key : String → Act String (List ℕ)
unfolding read_file ◌>>=◌
load_key key_file = do
  text ← on_error (read_file key_file) (λ e. fail (file_error_text ("open " <> key_file) e))
  found ← reads (λ env. env.parse_key text)
  some_key "could not parse private key from file: wgtypes: failed to parse base64-encoded key"
      found

abbrev pub is_not_exist : {A : Type 0} → Outcome FileError A → Bool
is_not_exist (err not_exist) = true
is_not_exist _ = false

unfoldable pub psk_of : String → Act String (Option (List ℕ))
unfolding ◌>>=◌
psk_of psk = do
  found ← reads (λ env. env.parse_key psk)
  key ← some_key "could not parse psk: wgtypes: failed to parse base64-encoded key" found
  pure (some key)

abbrev pub key_file_of : String → String
key_file_of key_file = if key_file == "" then "/var/lib/wgxdp/wgkey" else key_file

unfoldable pub setup_keys : String → String → Act String Keys
unfolding stat generate_key load_key psk_of ◌>>=◌
setup_keys key_file psk = do
  at ← attempt (stat (key_file_of key_file))
  key ←
      if is_not_exist at
      then generate_key (key_file_of key_file)
      else load_key (key_file_of key_file)
  public ← reads (λ env. env.public_of key)
  shared ← if psk == "" then pure none else psk_of psk
  pure (record { private_key = key; public_key = public; psk = shared })
