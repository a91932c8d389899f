-- ===== src/Config/Host.antt =====
-- What internal/config asks of the machine and of two engines of Go's standard library: the home
-- directory, the environment, os.Stat, regexp.Compile and base64 decoding.
use jconfig.Prelude.{Option}
use jconfig.Prelude.Answer.{Answer}
use jconfig.Strings.Basic.{Text}
use jconfig.Config.Types.{Matcher}

pub record Host : Type 0 where
  -- os.UserHomeDir, `none` for an error
  pub home_dir : Option Text
  -- user.Current().HomeDir, `none` for an error
  pub account_home : Option Text
  -- os.LookupEnv
  pub lookup_env : Text → Option Text
  -- whether os.Stat finds the file
  pub stat : Text → Answer Text
  -- regexp.Compile
  pub compile : Text → Answer Matcher
  -- base64.StdEncoding.DecodeString
  pub decode_base64 : Text → Answer Text
