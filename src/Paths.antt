-- ===== src/Paths.antt =====
-- src/paths.rs: the files that the commands use where none is named. A path is a text; `join` is
-- that of std::path, and the home directory is the variable HOME.
use acp_tunnel.Common.{String, Option, none, some, is_blank, if◌then◌else◌}
use acp_tunnel.Fault.{config, Result, ok_or}

abbrev pub config_directory : String
config_directory = ".config/acp-tunnel"

unfoldable pub home_directory_from : Option String → Option String
home_directory_from none = none
home_directory_from (some value) = if is_blank value then none else some value

abbrev pub or_default : Option String → Option String → Option String
or_default (some path) other = some path
or_default none other = other

module _ (join : String → String → String) (home : Option String) where
  abbrev pub under : String → Option String → Option String
  under name none = none
  under name (some directory) = some (join directory name)

  unfoldable pub default_config_directory : Option String
  unfolding home_directory_from
  default_config_directory = under config_directory (home_directory_from home)

  unfoldable pub default_server_config_file : Option String
  unfolding default_config_directory
  default_server_config_file = under "config.toml" default_config_directory

  unfoldable pub default_token_file : Option String
  unfolding default_config_directory
  default_token_file = under "token" default_config_directory

  unfoldable pub resolve_server_config_file : Option String → Result String
  unfolding default_server_config_file
  resolve_server_config_file path =
      ok_or (or_default path default_server_config_file)
        (config "use --config because the process home directory is unavailable")
