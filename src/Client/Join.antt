-- ===== src/Client/Join.antt =====
-- `runJoin`, `maskFromCIDR` and `main` of cmd/wgxdp/main.go.
use wgxdp.Base.{
  ℕ, String, ◌<>◌, Bool, not, Option, none, some, List, ◌∷◌, ◌==◌, string_eq, nat_eq, if◌then◌else◌,
}
use wgxdp.Base.Text.{decimal}
use wgxdp.Act.{Outcome, ok, err}
use wgxdp.Server.Peers.{JoinRequest}
use wgxdp.Client.{
  DeviceCodeResponse, JoinResponse, Network, Client, code_request, join_request, Stop, failure,
  running, Run, ◌>>=◌, ◌>>◌, pure, post, decode, require,
}
use wgxdp.Client.Poll.{poll_loop, deadline_of}

-- The text after the first slash, 24 without one.
unfoldable pub after_slash : String → Option String
after_slash String.[] = none
after_slash (String.◌∷◌ c s) = if String.◌∷◌ c "" == "/" then some s else after_slash s

abbrev pub or_24 : Option String → String
or_24 none = "24"
or_24 (some bits) = bits

unfoldable pub mask_from_cidr : String → String
unfolding after_slash
mask_from_cidr cidr = or_24 (after_slash cidr)

unfoldable pub wg_config : String → JoinResponse → String
unfolding mask_from_cidr
wg_config private_key jr =
    "[Interface]\n"
    <> (("PrivateKey = " <> (private_key <> "\n"))
        <> (("Address = " <> (jr.assigned_ip <> ("/" <> (mask_from_cidr jr.subnet <> "\n\n"))))
            <> ("[Peer]\n"
                <> (("PublicKey = " <> (jr.server_public_key <> "\n"))
                    <> (("Endpoint = " <> (jr.server_endpoint <> "\n"))
                        <> (("AllowedIPs = " <> (jr.subnet <> "\n"))
                            <> "PersistentKeepalive = 25"))))))

unfoldable pub generated : Network → Run (List ℕ)
generated net c = elim net.generated_key [
  | none ↦ (
    err (failure "could not generate WireGuard key pair: wgtypes: failure to read random bytes"),
    c,
  )
  | some key ↦ (ok key, c)
]

unfoldable pub clock : Run ℕ
clock c = (ok c.now, c)

unfoldable pub request_code : Network → String → Run DeviceCodeResponse
request_code net server_url = do
  let url = server_url <> "/device/code"
  reply ← post net (code_request url) "could not request device code: " (λ n. net.code_reply n url)
  require (reply.status == 200)
      ("server returned " <> (decimal reply.status <> (": " <> reply.text)))
  decode "could not decode response: " reply.body

unfoldable pub request_join : Network → String → JoinRequest → Run JoinResponse
request_join net server_url jr = do
  let url = server_url <> "/join"
  reply ← post net (join_request url jr) "could not join network: " (λ n. net.join_reply n url jr)
  require (reply.status == 200) ("join failed (" <> (decimal reply.status <> ("): " <> reply.text)))
  decode "could not decode join response: " reply.body

unfoldable pub run_join : Network → ℕ → String → String → Run String
run_join net fuel server_url name = do
  private_key ← generated net
  dc ← request_code net server_url
  now ← clock
  token ← poll_loop net server_url dc (deadline_of dc.expires_in now) fuel
  require (not (token == "")) "authorization timed out"
  jr ← request_join net server_url (record {
    access_token = token;
    public_key = net.show_key (net.public_of private_key);
    name = name;
  })
  pure (wg_config (net.show_key private_key) jr)

-- The flags of `join`, as package flag parses them.
pub record Flags : Type 0 where
  pub server : String
  pub name : String
  pub qrcode : Bool

-- How the command ends: with its configuration, or with an exit code after a message.
pub data Exit : Type 0 where
  printed : String → Exit
  exits : ℕ → String → Exit
  still_running : Exit

abbrev exit_of : Outcome Stop String × Client → Exit × Client
exit_of (ok config, c) = (printed config, c)
exit_of (err (failure e), c) = (exits 1 ("Error: " <> e), c)
exit_of (err running, c) = (still_running, c)

-- `main`; `parse_flags` is package flag, which exits with 2 where it gives nothing.
unfoldable pub main :
    (List String → Option Flags) → Network → ℕ → List String → Client → Exit × Client
main parse_flags net fuel (program ∷ command ∷ args) c =
    if command == "join"
    then elim (parse_flags args) [
      | none ↦ (exits 2 "Usage of join:", c)
      | some flags ↦
          if flags.server == ""
          then (exits 1 "--server is required", c)
          else exit_of (run_join net fuel flags.server flags.name c)
    ]
    else (exits 1 ("Unknown command: " <> command), c)
main parse_flags net fuel _ c = (exits 1 "Usage: wgxdp <command>", c)
