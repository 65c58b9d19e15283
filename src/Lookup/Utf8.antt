-- ===== src/Lookup/Utf8.antt =====
-- `String::from_utf8`: which byte sequences are UTF-8.
use wasm_shared_buffers.Base.{
  ℕ, ◌-◌, Bool, false, ◌&&◌, Option, none, some, List, [], ◌∷◌, ltb, leb, ◌==◌, if◌then◌else◌, ◌<◌,
  ◌≡◌, refl, ap, ◌∙◌, true, All, lt→ltb,
}

-- How many bytes of the current character are still to come, and the range of the next.
record Pending : Type 0 where
  left : ℕ
  low : ℕ
  high : ℕ

abbrev between : ℕ → ℕ → ℕ → Bool
between b low high = leb low b && leb b high

abbrev pending : ℕ → ℕ → ℕ → Option Pending
pending left low high = some (record { left = left; low = low; high = high })

-- The first byte of a character.
lead_byte : ℕ → Option Pending
lead_byte b =
    if ltb b 0x80
    then pending 0 0x80 0xbf
    else if between b 0xc2 0xdf
    then pending 1 0x80 0xbf
    else if b == 0xe0
    then pending 2 0xa0 0xbf
    else if b == 0xed
    then pending 2 0x80 0x9f
    else if between b 0xe1 0xef
    then pending 2 0x80 0xbf
    else if b == 0xf0
    then pending 3 0x90 0xbf
    else if between b 0xf1 0xf3
    then pending 3 0x80 0xbf
    else if b == 0xf4
    then pending 3 0x80 0x8f
    else none

next_byte : Pending → ℕ → Option Pending
next_byte p b =
    if p.left == 0
    then lead_byte b
    else if between b p.low p.high
    then pending (p.left - 1) 0x80 0xbf
    else none

scan_utf8 : Pending → List ℕ → Bool
scan_utf8 p [] = p.left == 0
scan_utf8 p (b ∷ bs) = elim (next_byte p b) [ none ↦ false | some p' ↦ scan_utf8 p' bs ]

unfoldable pub is_utf8 : List ℕ → Bool
unfolding scan_utf8 next_byte lead_byte
is_utf8 = scan_utf8 (record { left = 0; low = 0x80; high = 0xbf })

lead_byte-ascii : (b : ℕ) → b < 128 → lead_byte b ≡ pending 0 0x80 0xbf
unfolding lead_byte
lead_byte-ascii b h = rw (lt→ltb b 0x80 h)

scan_utf8-ascii :
    (bs : List ℕ)
    → All (λ b. b < 128) bs
    → scan_utf8 (record { left = 0; low = 0x80; high = 0xbf }) bs ≡ true
unfolding scan_utf8 next_byte
scan_utf8-ascii [] all = refl
scan_utf8-ascii (b ∷ bs) (h, all) =
    ap (λ o. elim o as (λ _. Bool) [ none ↦ false | some p ↦ scan_utf8 p bs ]) (lead_byte-ascii b h)
    ∙ scan_utf8-ascii bs all

-- ASCII is UTF-8.
pub is_utf8-ascii : (bs : List ℕ) → All (λ b. b < 128) bs → is_utf8 bs ≡ true
unfolding is_utf8
is_utf8-ascii bs all = scan_utf8-ascii bs all
