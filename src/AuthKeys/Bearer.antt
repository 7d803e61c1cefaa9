-- ===== src/AuthKeys/Bearer.antt =====
-- A token in the forms in which clients send it.
use Prim.Native.Char.{Char}
use new_api_gateway.Prelude.{String, true, false, ◌≡◌, ◌⊎◌}
use new_api_gateway.Text.{◌<>◌, is_empty, is_char, is_space, lacks}

-- A token as a client sends it: a prefix, the key, and nothing more or a suffix that chooses a channel.
abbrev pub token : String → String → String
token key tail = "sk-" <> (key <> tail)

-- A key with no dash and no space, and a tail that is empty or a dash and a suffix with no space.
pub record IsToken (key tail : String) : Type 0 where
  pub present : is_empty key ≡ false
  pub no_dash : lacks (is_char b'-') key ≡ true
  pub no_space : lacks is_space key ≡ true
  pub tail_of :
      (tail ≡ "") ⊎ ((suffix : String) × (tail ≡ "-" <> suffix) × (lacks is_space suffix ≡ true))
