-- ===== src/Config/Load.antt =====
-- `New` and `Load` of config/config.go.
use wgxdp.Base.{String, ◌<>◌, Option, none, some}
use wgxdp.Config.{Config}
use wgxdp.Act.{Act, pure, fail, reads, on_error, ◌>>=◌}
use wgxdp.Files.{FileError, not_exist, refused, read_file}

abbrev path_or_default : Option String → String
path_or_default none = "/config/config.yaml"
path_or_default (some path) = path

abbrev load_error : String → FileError → String
load_error path not_exist = "config file " <> (path <> " not found")
load_error path (refused e) = "could not read config file: " <> e

abbrev unmarshalled : Option Config → Act String Config
unmarshalled none = fail "yaml: unmarshal errors"
unmarshalled (some c) = pure c

unfoldable pub load : Act String Config
unfolding read_file ◌>>=◌
load = do
  config_file ← reads (λ env. path_or_default env.config_file)
  data_read ← on_error (read_file config_file) (λ e. fail (load_error config_file e))
  parsed ← reads (λ env. env.parse_yaml data_read)
  unmarshalled parsed

unfoldable pub new_config : Act String Config
unfolding load ◌>>=◌
new_config = do c ← load; pure c
