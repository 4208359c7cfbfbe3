-- ===== src/Float32/Tests.antt =====
-- Patterns computed by `add`, `sub` and the conversions from and to texts.
use blockchain_raft.Base.{◌≡◌, refl, [], ◌∷◌, some, none}
use blockchain_raft.Float32.Parse.{stof, atof}
use blockchain_raft.Float32.{add, sub, to_text, ten, minus_one, nan, infinity}

-- 10.0 + 10.0 = 20.0
twenty : add ten ten ≡ 0x41a00000
unfolding add
twenty = refl

-- 10.0 - 10.0 = +0.0
nothing_left : sub ten ten ≡ 0
unfolding sub
nothing_left = refl

-- 0.1f + 0.2f = 0.3f, rounded
tenths : add 0x3dcccccd 0x3e4ccccd ≡ 0x3e99999a
unfolding add
tenths = refl

-- The largest finite value doubled is infinite, and infinity less itself is no number.
overflow : add 0x7f7fffff 0x7f7fffff ≡ infinity
unfolding add
overflow = refl

no_number : sub infinity infinity ≡ nan
unfolding sub
no_number = refl

minus_one_text :
    to_text minus_one ≡ b'-' ∷ b'1' ∷ b'.' ∷ b'0' ∷ b'0' ∷ b'0' ∷ b'0' ∷ b'0' ∷ b'0' ∷ []
unfolding to_text
minus_one_text = refl

-- 9.96f is 9.96000003…
text_996 : to_text 0x411f5c29 ≡ b'9' ∷ b'.' ∷ b'9' ∷ b'6' ∷ b'0' ∷ b'0' ∷ b'0' ∷ b'0' ∷ []
unfolding to_text
text_996 = refl

-- "10.0"
ten_read : stof (b'1' ∷ b'0' ∷ b'.' ∷ b'0' ∷ []) ≡ some 0x41200000
unfolding stof
ten_read = refl

fraction_read : stof (b'-' ∷ b'1' ∷ b'e' ∷ b'-' ∷ b'1' ∷ []) ≡ some 0xbdcccccd
unfolding stof blockchain_raft.Base.◌-ℤ◌ blockchain_raft.Text.read_digits
fraction_read = refl

nothing_read : stof [] ≡ none
unfolding stof
nothing_read = refl

third_read : atof (b'2' ∷ b'.' ∷ b'5' ∷ b'x' ∷ []) ≡ 0x40200000
unfolding atof
third_read = refl
