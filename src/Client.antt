-- ===== src/Client.antt =====
-- cmd/wgxdp/main.go: the command `wgxdp join`. The server is what answers the requests: a network may
-- answer each of them as it likes. Durations are counted in nanoseconds; what is printed on the way is
-- left out, and the result is the configuration for wg-quick, with and without its QR code.
pub mod Poll
pub mod Join
pub mod Polling
pub mod Ending
pub mod Joining
pub mod Served
pub mod Mask
use wgxdp.Base.{
  ℕ, zero, suc, ◌+◌, ◌-◌, ◌*◌, String, ◌<>◌, Bool, true, false, not, Option, none, some, List, [],
  ◌∷◌, length, ltb, ◌==◌, string_eq, nat_eq, if◌then◌else◌,
}
use wgxdp.Base.Int.{ℤ, pos, negsuc}
use wgxdp.Base.Text.{decimal}
use wgxdp.Act.{Outcome, ok, err}
use wgxdp.Server.{Body, empty, malformed, decoded}
use wgxdp.Server.DeviceFlow.{DeviceTokenRequest}
use wgxdp.Server.Peers.{JoinRequest}

pub record DeviceCodeResponse : Type 0 where
  pub device_code : String
  pub user_code : String
  pub verification_uri : String
  pub expires_in : ℤ
  pub interval : ℤ

pub record DeviceTokenResponse : Type 0 where
  pub access_token : String
  pub token_type : String
  pub error : String

pub record JoinResponse : Type 0 where
  pub assigned_ip : String
  pub subnet : String
  pub server_public_key : String
  pub server_endpoint : String
  pub peer_name : String

-- An answer: its status, its body as the JSON decoder gives it, and as text.
pub record Reply (B : Type 0) : Type 0 where
  pub status : ℕ
  pub body : Body B
  pub text : String

-- A request that has been posted, with its URL.
pub data Posted : Type 0 where
  code_request : String → Posted
  token_request : String → DeviceTokenRequest → Posted
  join_request : String → JoinRequest → Posted

-- What the client is told from outside: the answer to the request of a number, or the reason that there
-- is none; how long a request takes; the random source, and the functions of wgtypes.
pub record Network : Type 0 where
  pub code_reply : ℕ → String → Outcome String (Reply DeviceCodeResponse)
  pub token_reply : ℕ → String → DeviceTokenRequest → Outcome String (Reply DeviceTokenResponse)
  pub join_reply : ℕ → String → JoinRequest → Outcome String (Reply JoinResponse)
  pub takes : ℕ → ℕ
  pub generated_key : Option (List ℕ)
  pub public_of : List ℕ → List ℕ
  pub show_key : List ℕ → String

-- The clock, and the requests so far, the last one first.
pub record Client : Type 0 where
  pub now : ℕ
  pub posted : List Posted

-- Why there is no result: an error, or a run that is longer than its fuel.
pub data Stop : Type 0 where
  failure : String → Stop
  running : Stop

abbrev pub Run : Type 0 → Type 0
Run A = Client → Outcome Stop A × Client

module _ {A B : Type 0} where
  abbrev pub then_run : (A → Run B) → Outcome Stop A × Client → Outcome Stop B × Client
  then_run f (ok a, c) = f a c
  then_run f (err e, c) = (err e, c)

  infixl 10 ◌>>=◌ ◌>>◌
  unfoldable pub ◌>>=◌ : Run A → (A → Run B) → Run B
  ◌>>=◌ m f c = then_run f (m c)

  abbrev pub ◌>>◌ : Run A → Run B → Run B
  m >> n = m >>= λ _. n

module _ {A : Type 0} where
  unfoldable pub pure : A → Run A
  pure a c = (ok a, c)

  unfoldable pub fail : String → Run A
  fail e c = (err (failure e), c)

  abbrev pub or_fail : String → Outcome String A → Outcome Stop A
  or_fail what (ok a) = ok a
  or_fail what (err e) = err (failure (what <> e))

  -- `http.Post`, by the number of the request.
  unfoldable pub post : Network → Posted → String → (ℕ → Outcome String A) → Run A
  post net sent what answer c = (
    or_fail what (answer (length c.posted)),
    record c { now = c.now + net.takes (length c.posted); posted = sent ∷ c.posted },
  )

  -- `json.NewDecoder(…).Decode`
  unfoldable pub decode : String → Body A → Run A
  decode what empty c = (err (failure (what <> "EOF")), c)
  decode what malformed c = (err (failure (what <> "invalid character")), c)
  decode what (decoded b) c = (ok b, c)

unfoldable pub require : Bool → String → Run (Unit {0})
require true e c = (ok tt, c)
require false e c = (err (failure e), c)
