-- ===== src/Tests/Joining.antt =====
-- A run of the command `wgxdp join` against a network that answers as the server does.
use wgxdp.Base.{◌≡◌, refl, ◌<>◌, some, [], ◌∷◌, ◌==◌, nat_eq, if◌then◌else◌}
use wgxdp.Act.{Outcome, ok, err}
use wgxdp.Act
use wgxdp.World.{World}
use wgxdp.Database.{DeviceCode}
use wgxdp.Base.Text.{decimal}
use wgxdp.Sql.{sql, check, checked, apply}
use wgxdp.Database.Codes.{create_device_code}
use wgxdp.Database.Random.{
  generate_random_hex, generate_user_code, read_random, encode_to_string, write_letters,
}
use wgxdp.Server.{handler, Body, decoded, respond, token_error}
use wgxdp.Server.DeviceFlow.{device_code_handler, token_answer, config_of}
use wgxdp.Server.Tokens.{poll_answer}
use wgxdp.Client.{Network, Client, Posted, JoinResponse, post, require, decode, pure, ◌>>=◌}
use wgxdp.Client.Poll.{poll_token, poll_loop, round, sleep, poll_result}
use wgxdp.Client.Join.{
  run_join, wg_config, generated, request_code, clock, request_join, mask_from_cidr,
}
use wgxdp.Client.Mask.{has_slash, mask_from_cidr_lem}
use wgxdp.Client.Polling.{Ended}
use wgxdp.Client.Joining.{IsJoined, run_join-IsJoined}
use wgxdp.Client.Served.{
  code_reply_of, token_reply_of, polled, poll_token-poll_answer, Served, run_join-Served,
}
use wgxdp.Tests.Data
use wgxdp.Tests.Data.{server, request, calm, tables}

abbrev approved_row : DeviceCode
approved_row = record {
  device_code = "dc";
  user_code = "ABCD-EFGH";
  expires_at = 1500;
  interval = 5;
  status = "approved";
  access_token = "token";
}

abbrev joined_answer : JoinResponse
joined_answer = record {
  assigned_ip = "10.0.0.2";
  subnet = "10.0.0.0/16";
  server_public_key = "shown";
  server_endpoint = "vpn:51820";
  peer_name = "carol";
}

-- A server without device codes.
abbrev unused : World
unused = record Data.start { db = record tables { device_codes = record { rows = []; seq = 0 } } }

-- The second poll finds the code approved.
abbrev network : Network
network = record {
  code_reply = λ n url.
      code_reply_of (device_code_handler server (request {B = Unit {0}} Body.empty) calm unused).0;
  token_reply = λ n url dtr.
      if n == 1
      then token_reply_of (respond 429 (token_error "authorization_pending"))
      else token_reply_of (poll_answer (some approved_row) 1000);
  join_reply = λ n url jr. ok (record { status = 200; body = decoded joined_answer; text = "" });
  takes = λ n. 10;
  generated_key = some (1 ∷ []);
  public_of = λ key. 7 ∷ key;
  show_key = calm.show_key;
}

abbrev fresh : Client
fresh = record { now = 0; posted = [] }

poll_token-poll_answer_example :
    (poll_token network "https://vpn" "dc"
      (record fresh { posted = Posted.code_request "" ∷ Posted.code_request "" ∷ [] })).0
    ≡ polled (some approved_row) 1000
poll_token-poll_answer_example =
    poll_token-poll_answer network "https://vpn" "dc"
      (record fresh { posted = Posted.code_request "" ∷ Posted.code_request "" ∷ [] })
      (some approved_row) 1000 refl

served : Served network
served = record {
  server_of = λ n url. server;
  request_of = λ n url. request Body.empty;
  env_of = λ n url. calm;
  state_of = λ n url. unused;
  answers = λ n url. refl;
}

run_join-Served_example : Ended fresh 122 (run_join network 121 "https://vpn" "carol" fresh)
run_join-Served_example = run_join-Served network "https://vpn" "carol" fresh served

run_join-IsJoined_example : IsJoined network "https://vpn" "carol" (wg_config "key" joined_answer)
unfolding run_join generated request_code post require decode clock poll_loop round sleep poll_token
    poll_result token_answer request_join pure wg_config mask_from_cidr ◌>>=◌ device_code_handler
    handler config_of create_device_code generate_random_hex generate_user_code read_random
    encode_to_string write_letters sql check checked apply decimal Act.◌>>=◌
run_join-IsJoined_example =
    run_join-IsJoined network 121 "https://vpn" "carol" fresh
      {config = wg_config "key" joined_answer}
      {c' = (run_join network 121 "https://vpn" "carol" fresh).1} refl

mask_from_cidr_lem_example : mask_from_cidr ("10.0.0.0" <> ("/" <> "16")) ≡ "16"
unfolding has_slash
mask_from_cidr_lem_example = mask_from_cidr_lem "10.0.0.0" "16" refl
