-- ===== src/Wireguard/Fresh.antt =====
-- The interface that `NewDevice` leaves, whatever was there before.
use wgxdp.Base.{ap, String, ◌≡◌, sym, subst, ◌∙◌, some, [], ◌∷◌, arith, inl, inr}
use wgxdp.Base.Int.{ℤ}
use wgxdp.World.{Env, World, DeviceConfig}
use wgxdp.Act.{ok, err, pure, bind-cases, ◌>>=◌}
use wgxdp.Sql.{check, checked}
use wgxdp.Wireguard.{DeviceAttrs, apply, remove, configure_device, take_config, delete_link}
use wgxdp.Wireguard.Keys.{Keys, setup_keys, key_file_of}
use wgxdp.Wireguard.KeyFile.{ReadsBack, Holds, setup_keys-Holds}
use wgxdp.Wireguard.Setup.{
  link_add, link_del, netlink_call, new_link, recreate, ensure_link, first_config, new_device,
  attrs_of,
}

-- An interface of the name has been deleted, with all that was set on it.
ensure_link-empty :
    (env : Env) (w : World) {v : World}
    → ensure_link env w ≡ (ok tt, v)
    → (v.link ≡ some []) × (v.db ≡ w.db) × (v.host.files ≡ w.host.files)
unfolding ensure_link recreate link_add link_del netlink_call new_link delete_link check checked
    ◌>>=◌
ensure_link-empty env w e = ground arith

apply-link :
    (cfg : DeviceConfig) (env : Env) (w : World) {v : World}
    → w.link ≡ some []
    → apply cfg env w ≡ (ok tt, v)
    → (v.link ≡ some (cfg ∷ [])) × (v.db ≡ w.db) × (v.host.files ≡ w.host.files)
unfolding apply remove configure_device take_config delete_link check checked ◌>>=◌
apply-link cfg env w up e = ground arith

-- The calls of `NewDevice` that has returned, one after the other.
record Steps (name : String) (listen_port : ℤ) (key_file : String) (env : Env) (w : World)
    (dev : DeviceAttrs) (w' : World) : Type 0 where
  keys : Keys
  w1 : World
  w2 : World
  set_up : setup_keys key_file "" env w ≡ (ok keys, w1)
  ensured : ensure_link env w1 ≡ (ok tt, w2)
  applied : apply (first_config dev) env w2 ≡ (ok tt, w')
  same_dev : attrs_of name listen_port keys ≡ dev

last_step :
    (cfg : DeviceAttrs → DeviceConfig) (attrs : DeviceAttrs) (env : Env) (w2 v : World)
    {dev : DeviceAttrs} {w' : World}
    → apply (cfg attrs) env w2 ≡ (ok tt, v)
    → pure {E = String} attrs env v ≡ (ok dev, w')
    → (apply (cfg dev) env w2 ≡ (ok tt, w')) × (attrs ≡ dev)
unfolding pure
last_step cfg attrs env w2 v {dev = dev} {w' = w'} applied done =
    let same : attrs ≡ dev = ap (λ r. elim r.0 [ ok a ↦ a | err _ ↦ attrs ]) done in
    (
      subst (λ d. apply (cfg d) env w2 ≡ (ok tt, w')) same (applied ∙ ap (λ r. (ok tt, r.1)) done),
      same,
    )

new_device-Steps :
    (name : String) (listen_port : ℤ) (key_file : String) (env : Env) (w : World)
    {dev : DeviceAttrs} {w' : World}
    → new_device name listen_port key_file env w ≡ (ok dev, w')
    → Steps name listen_port key_file env w dev w'
unfolding new_device
new_device-Steps name listen_port key_file env w e = elim (bind-cases _ _ env w e) [
  | inr (why, _, bad) ↦ absurd (cc)
  | inl (keys, w1, e0, e1) ↦ elim (bind-cases _ _ env w1 e1) [
    | inr (why, _, bad) ↦ absurd (cc)
    | inl (_, w2, ensured, e2) ↦ elim (bind-cases _ _ env w2 e2) [
      | inr (why, _, bad) ↦ absurd (cc)
      | inl (_, w3, applied, done) ↦
          let (last, same) =
            last_step first_config (attrs_of name listen_port keys) env w2 w3 applied done in
          record {
            keys = keys;
            w1 = w1;
            w2 = w2;
            set_up = e0;
            ensured = ensured;
            applied = last;
            same_dev = same;
          }
    ]
  ]
]

-- The interface has the configuration of the device, and no other.
pub new_device-link :
    (name : String) (listen_port : ℤ) (key_file : String) (env : Env) (w : World)
    {dev : DeviceAttrs} {w' : World}
    → new_device name listen_port key_file env w ≡ (ok dev, w')
    → w'.link ≡ some (first_config dev ∷ [])
new_device-link name listen_port key_file env w {dev = dev} e =
    let steps = new_device-Steps name listen_port key_file env w e in
    (apply-link (first_config dev) env steps.w2 (ensure_link-empty env steps.w1 steps.ensured).0
      steps.applied).0

pub record IsFresh (env : Env) (path : String) (dev : DeviceAttrs) (w' : World) : Type 0 where
  pub one_config : w'.link ≡ some (first_config dev ∷ [])
  pub key_is_kept : Holds env path w'.host.files dev.private_key
  pub keys_match : dev.public_key ≡ env.public_of dev.private_key

-- If a key that was drawn is read back from its text, a device that `NewDevice` returns is on an
-- interface with one configuration, which replaces all peers, whatever was there before; its private
-- key can be read from the key file, and its public key is that of the private key.
pub new_device-IsFresh :
    (name : String) (listen_port : ℤ) (key_file : String) (env : Env) (w : World)
    {dev : DeviceAttrs} {w' : World}
    → ReadsBack env
    → new_device name listen_port key_file env w ≡ (ok dev, w')
    → IsFresh env (key_file_of key_file) dev w'
new_device-IsFresh name listen_port key_file env w {dev = dev} {w' = w'} back e =
    let steps = new_device-Steps name listen_port key_file env w e in
    let (up, _, files) = ensure_link-empty env steps.w1 steps.ensured in
    let (one, _, files') = apply-link (first_config dev) env steps.w2 up steps.applied in
    let (held, derived) = setup_keys-Holds env key_file "" w back steps.set_up in
    record {
      one_config = one;
      key_is_kept =
          subst (λ d. Holds env (key_file_of key_file) w'.host.files d.private_key) steps.same_dev
            (subst (λ f. Holds env (key_file_of key_file) f steps.keys.private_key)
              (sym (files' ∙ files)) held);
      keys_match = subst (λ d. d.public_key ≡ env.public_of d.private_key) steps.same_dev derived;
    }
