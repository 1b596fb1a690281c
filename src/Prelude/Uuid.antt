-- ===== src/Prelude/Uuid.antt =====
-- Python's `str` of a `UUID`, and `in` on texts.
use Prim.Native.Nat.{ℕ, zero, suc, ◌+◌, ◌/◌, ◌%◌, ◌^◌}
use Prim.Native.String.{String, [], ◌∷◌, ◌++◌, char_at, find, len}
use mathlib.Core.List
use mathlib.Core.Bool.{Bool}
use mathlib.Core.Path.{◌≡◌, refl}
use infra_twin.Prelude.Tests.{leb}

-- the last hexadecimal digits of a number, before a text
unfoldable hex : ℕ → ℕ → String → String
hex zero n out = out
hex (suc digits) n out = hex digits (n / 16) (char_at "0123456789abcdef" (n % 16) ∷ out)

-- `str(id)`: groups of 8, 4, 4, 4 and 12 digits
unfoldable pub uuid_text : ℕ → String
unfolding hex
uuid_text id = hex 8 (id / 2 ^ 96) (
    "-"
    ∷ hex 4 (id / 2 ^ 80)
        ("-" ∷ hex 4 (id / 2 ^ 64) ("-" ∷ hex 4 (id / 2 ^ 48) ("-" ∷ hex 12 id []))))

-- the parts of an f-string, joined
unfoldable pub joined : List.List String → String
joined List.[] = []
joined (List.◌∷◌ part parts) = part ++ joined parts

-- `part in text`
unfoldable pub contains_text : String → String → Bool
contains_text part text = leb (find text part) (len text)

prints : uuid_text (2 ^ 127 + 10) ≡ "80000000-0000-0000-0000-00000000000a"
unfolding uuid_text
prints = refl
