-- ===== src/Utils/EnvBool/Tests.antt =====
-- Runs of the flag parser on concrete values.
use alpha_live.Prelude.{◌≡◌, refl, true, false, some, ok, raise, value_error}
use alpha_live.Utils.EnvBool.{codes, parse_bool_env, is_space}

padded_true : parse_bool_env (some (codes " True  ")) false ≡ ok true
unfolding parse_bool_env is_space
padded_true = refl

blank_default : parse_bool_env (some (codes "  ")) true ≡ ok true
unfolding parse_bool_env is_space
blank_default = refl

malformed : parse_bool_env (some (codes "paused")) false ≡ raise value_error
unfolding parse_bool_env is_space
malformed = refl
