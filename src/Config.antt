-- ===== src/Config.antt =====
-- config/config.go: the settings of the server.
pub mod Load
use wgxdp.Base.{String}
use wgxdp.Base.Int.{ℤ}

pub record Config : Type 0 where
  pub name : String
  pub server_url : String
  pub wg_endpoint : String
  pub wg_subnet : String
  pub wg_interface_ip : String
  pub wg_interface_name : String
  pub wg_listen_port : ℤ
  pub auth_header : String
  pub auth_redirect_url : String
  pub listen_addr : String
  pub wg_key_file : String
  pub db_path : String
