-- ===== src/Options/Table.antt =====
-- `BaseApp::defineOptions` (src/BaseApp.cpp): the options of the command line.
use Prim.Native.String.{String}
use ml_gridengine_executor.Base.{ℕ, Bool, true, false}

-- An option, by its long name.
pub data OptionName : Type 0 where
  help work_dir env no_exit watch_generated server_host server_port buffer_size callback_api
        callback_token output_file status_file run_after :
      OptionName

-- RegExpValidator and IntValidator
pub data Validator : Type 0 where
  any_text : Validator
  reg_exp : String → Validator
  int_range : ℕ → ℕ → Validator

-- `argument` is empty for an option that takes none.
pub record OptionEntry : Type 0 where
  pub full_name : String
  pub short_name : String
  pub argument : String
  pub repeatable : Bool
  pub validator : Validator

abbrev pub buffer_size_pattern : String
buffer_size_pattern = "^(\\d+(?:\\.\\d*)?)\\s*([MKmk]?[Bb]?)$"

-- An option that takes a text, is given once, and has no short name.
abbrev taking : String → String → Validator → OptionEntry
taking full_name argument validator = record {
  full_name = full_name;
  short_name = "";
  argument = argument;
  repeatable = false;
  validator = validator;
}

unfoldable pub entry_of : OptionName → OptionEntry
entry_of help = record (taking "help" "" any_text) { short_name = "h" }
entry_of work_dir = record (taking "work-dir" "PATH" any_text) { short_name = "w" }
entry_of env = record (taking "env" "NAME=VALUE" (reg_exp "^([^=]+)=(.*)$")) {
  short_name = "e";
  repeatable = true;
}
entry_of no_exit = taking "no-exit" "" any_text
entry_of watch_generated = taking "watch-generated" "" any_text
entry_of server_host = record (taking "server-host" "HOST" any_text) { short_name = "h" }
entry_of server_port = record (taking "server-port" "PORT" (int_range 0 65535)) { short_name = "p" }
entry_of buffer_size = taking "buffer-size" "BUFFER-SIZE" (reg_exp buffer_size_pattern)
entry_of callback_api = taking "callback-api" "URI" (reg_exp "^http://.+$")
entry_of callback_token = taking "callback-token" "TOKEN" any_text
entry_of output_file = taking "output-file" "PATH" (reg_exp "^.+$")
entry_of status_file = taking "status-file" "PATH" (reg_exp "^.+$")
entry_of run_after = taking "run-after" "COMMAND" (reg_exp "^.+$")
