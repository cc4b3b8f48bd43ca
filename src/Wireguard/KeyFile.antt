-- ===== src/Wireguard/KeyFile.antt =====
-- What is in the key file after the start of a server, and after one that was cut short.
use wgxdp.Base.{
  ℕ, suc, ◌+◌, String, ◌<>◌, ◌≡◌, sym, ap, subst, ◌∙◌, inl, inr, false, none, some, List, ◌==◌,
  string_eq, arith, Option-cases,
}
use wgxdp.World.{Env, World, StoredFile}
use wgxdp.Act.{ok, err, attempt, ◌>>=◌}
use wgxdp.Sql.{check, checked}
use wgxdp.Files.{
  Files, find_file, put_file, find_file-put_file, emptied, stat, found_file, read_file, split_dir,
  mkdir_all, create, chmod, change_file, write_string,
}
use wgxdp.Wireguard.Keys.{
  Keys, some_key, write_private_key, save_key, generate_key, load_key, psk_of, key_file_of,
  setup_keys,
}

-- The key can be read from the file.
unfoldable pub Holds : Env → String → Files → List ℕ → Type 0
Holds env path files key =
    (file : StoredFile) × (find_file path files ≡ some file)
    × (env.parse_key file.content ≡ some key)

module _ (env : Env) (path text : String) (w : World) {w' : World} where
  write_private_key-find_file :
      write_private_key path text env w ≡ (ok tt, w')
      → find_file path w'.host.files ≡ some (record { content = text; mode = 256 })
  unfolding write_private_key mkdir_all create chmod write_string change_file check checked ◌>>=◌
  write_private_key-find_file e =
      let fresh = emptied (find_file path w.host.files) in
      let created = put_file path fresh w.host.files in
      let closed : StoredFile = record fresh { mode = 256 } in
      ground (
        arith,
        find_file-put_file path fresh w.host.files,
        find_file-put_file path closed created,
        find_file-put_file path (record closed { content = text }) (put_file path closed created),
      )

module _ (env : Env) (path : String) (w : World) {key : List ℕ} {w' : World} where
  load_key-Holds : load_key path env w ≡ (ok key, w') → Holds env path w'.host.files key
  unfolding some_key load_key read_file stat found_file check checked ◌>>=◌ Holds
  load_key-Holds e = elim (Option-cases (find_file path w.host.files)) [
    | inl q ↦ ground arith
    | inr (f, q) ↦ (f, ground arith, ground arith)
  ]

-- `wgtypes.ParseKey` reads what `Key.String` has written of a key that was drawn.
abbrev pub ReadsBack : Env → Type 0
ReadsBack env =
    (t : ℕ) (key : List ℕ)
    → env.random_key t ≡ some key
    → env.parse_key (env.show_key key) ≡ some key

module _ (env : Env) (path : String) (w : World) {key : List ℕ} {w' : World} where
  save_key-Holds :
      env.parse_key (env.show_key key) ≡ some key
      → save_key path key env w ≡ (ok tt, w')
      → Holds env path w'.host.files key
  unfolding save_key ◌>>=◌ Holds
  save_key-Holds back e = (
    record { content = env.show_key key; mode = 256 },
    ground (arith, write_private_key-find_file env path (env.show_key key) w {w' = w'}),
    back,
  )

module _ (env : Env) (path : String) (w : World) {key : List ℕ} {w' : World} where
  generate_key-Holds :
      ReadsBack env → generate_key path env w ≡ (ok key, w') → Holds env path w'.host.files key
  unfolding some_key generate_key ◌>>=◌
  generate_key-Holds back e =
      let drawn = record w { tick = suc w.tick } in
      ground (arith, back w.tick key, save_key-Holds env path drawn {key = key} {w' = w'})

module _ (env : Env) (key_file psk : String) (w : World) {keys : Keys} {w' : World} where
  pub setup_keys-Holds :
      ReadsBack env
      → setup_keys key_file psk env w ≡ (ok keys, w')
      → Holds env (key_file_of key_file) w'.host.files keys.private_key
        × (keys.public_key ≡ env.public_of keys.private_key)
  unfolding setup_keys psk_of ◌>>=◌
  setup_keys-Holds back e =
      let path = key_file_of key_file in
      let looked = (attempt {F = String} (stat path) env w).1 in
      ground (
        arith,
        generate_key-Holds env path looked {key = keys.private_key} {w' = w'} back,
        load_key-Holds env path looked {key = keys.private_key} {w' = w'},
      )

module _ (env : Env) (key_file : String) (w : World) (key : List ℕ) where
  setup_keys-again :
      Holds env (key_file_of key_file) w.host.files key
      → env.file_error w.tick ≡ none
      → env.file_error (suc w.tick) ≡ none
      → setup_keys key_file "" env w ≡ (
        ok (record { private_key = key; public_key = env.public_of key; psk = none }),
        record w { tick = 2 + w.tick },
      )
  unfolding some_key setup_keys load_key read_file stat found_file check checked ◌>>=◌ Holds
  setup_keys-again h s r = ground (arith, h.1)

-- A server that starts again with the files that a successful start has left, and is refused no file,
-- has the same private and public key and changes nothing, if a key that was drawn is read back from its
-- text.
pub setup_keys-setup_keys :
    (env : Env) (key_file psk : String) (w v : World) {keys : Keys} {w' : World}
    → ReadsBack env
    → setup_keys key_file psk env w ≡ (ok keys, w')
    → v.host.files ≡ w'.host.files
    → env.file_error v.tick ≡ none
    → env.file_error (suc v.tick) ≡ none
    → setup_keys key_file "" env v
      ≡ (ok (record keys { psk = none }), record v { tick = 2 + v.tick })
setup_keys-setup_keys env key_file psk w v {keys = keys} back first kept s r =
    let (held, derived) = setup_keys-Holds env key_file psk w back first in
    rw derived (
      setup_keys-again env key_file v keys.private_key
        (subst (λ files. Holds env (key_file_of key_file) files keys.private_key) (sym kept) held) s
        r)

-- The write of the key is the only call that is refused.
pub record Interrupted (env : Env) (path : String) (w : World) (key : List ℕ) (why : String)
    : Type 0 where
  pub missing : find_file path w.host.files ≡ none
  pub directory : (split_dir path == "") ≡ false
  pub drawn : env.random_key (suc w.tick) ≡ some key
  pub looked : env.file_error w.tick ≡ none
  pub made : env.file_error (2 + w.tick) ≡ none
  pub created : env.file_error (3 + w.tick) ≡ none
  pub closed : env.file_error (4 + w.tick) ≡ none
  pub cut_short : env.file_error (5 + w.tick) ≡ some why

module _ (env : Env) (key_file psk : String) (w : World) {key : List ℕ} {why : String}
    (h : Interrupted env (key_file_of key_file) w key why) where
  interrupted-err : (setup_keys key_file psk env w).0 ≡ err ("could not write key file: " <> why)
  unfolding setup_keys some_key save_key generate_key write_private_key read_file stat found_file
      mkdir_all create chmod write_string check checked ◌>>=◌
  interrupted-err =
      ground
        (arith, h.missing, h.directory, h.drawn, h.looked, h.made, h.created, h.closed, h.cut_short)

  interrupted-find_file :
      find_file (key_file_of key_file) (setup_keys key_file psk env w).1.host.files
      ≡ some (record { content = ""; mode = 256 })
  unfolding setup_keys some_key save_key generate_key write_private_key read_file stat found_file
      mkdir_all create chmod write_string change_file check checked ◌>>=◌
  interrupted-find_file =
      let path = key_file_of key_file in
      let fresh : StoredFile = record { content = ""; mode = 438 } in
      ground (
        arith,
        h.missing,
        h.directory,
        h.drawn,
        h.looked,
        h.made,
        h.created,
        h.closed,
        h.cut_short,
        find_file-put_file path fresh w.host.files,
        find_file-put_file path (record fresh { mode = 256 }) (put_file path fresh w.host.files),
      )

load_key-refused :
    (env : Env) (key_file : String) (v : World) {file : StoredFile}
    → find_file (key_file_of key_file) v.host.files ≡ some file
    → env.parse_key file.content ≡ none
    → env.file_error v.tick ≡ none
    → env.file_error (suc v.tick) ≡ none
    → (setup_keys key_file "" env v).0
      ≡ err "could not parse private key from file: wgtypes: failed to parse base64-encoded key"
unfolding some_key setup_keys load_key read_file stat found_file check checked ◌>>=◌
load_key-refused env key_file v there empty s r = ground arith

-- A first start whose write of the key is refused leaves an empty key file, and a later start does not
-- get past it: the file is there, and no key can be read from it.
pub setup_keys-Interrupted :
    (env : Env) (key_file psk : String) (w v : World) {key : List ℕ} {why : String}
    → Interrupted env (key_file_of key_file) w key why
    → v.host.files ≡ (setup_keys key_file psk env w).1.host.files
    → env.file_error v.tick ≡ none
    → env.file_error (suc v.tick) ≡ none
    → env.parse_key "" ≡ none
    → ((setup_keys key_file psk env w).0 ≡ err ("could not write key file: " <> why))
      × ((setup_keys key_file "" env v).0
          ≡ err
              "could not parse private key from file: wgtypes: failed to parse base64-encoded key")
setup_keys-Interrupted env key_file psk w v h kept s r empty = (
  interrupted-err env key_file psk w h,
  load_key-refused env key_file v
      (ap (find_file (key_file_of key_file)) kept ∙ interrupted-find_file env key_file psk w h)
      empty s r,
)
