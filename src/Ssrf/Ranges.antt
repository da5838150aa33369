-- ===== src/Ssrf/Ranges.antt =====
-- `isBlockedIP` against the address blocks that its comment names, written as CIDR blocks.
use jttp.Prelude.{
  ℕ, ◌-◌, ◌/◌, ◌^◌, ◌<◌, ◌≡◌, ◌≢◌, refl, Bool, true, false, ◌&&◌, none, some, List, [], ◌∷◌, ◌==◌,
  ltb, if◌then◌else◌, any, length, arith,
}
use jttp.Ip.{Bytes, to4}
use jttp.Ssrf.{is_blocked_ip}

-- An address block: the bytes of its first address and the length of its prefix in bits.
pub record Cidr : Type 0 where
  pub base : Bytes
  pub prefix : ℕ

-- The first `prefix` bits of the address are those of the base.
unfoldable pub contains_from : Bytes → ℕ → Bytes → Bool
contains_from [] n ip = true
contains_from (b ∷ bs) n [] = false
contains_from (b ∷ bs) n (x ∷ xs) =
    if n == 0
    then true
    else if ltb n 8
    then x / 2 ^ (8 - n) == b / 2 ^ (8 - n)
    else x == b && contains_from bs (n - 8) xs

-- Every IPv4 block that is documented as blocked.
abbrev pub blocked_v4 : List Cidr
blocked_v4 =
    record { base = 127 ∷ 0 ∷ 0 ∷ 0 ∷ []; prefix = 8 }
    ∷ record { base = 169 ∷ 254 ∷ 0 ∷ 0 ∷ []; prefix = 16 }
    ∷ record { base = 224 ∷ 0 ∷ 0 ∷ 0 ∷ []; prefix = 4 }
    ∷ record { base = 10 ∷ 0 ∷ 0 ∷ 0 ∷ []; prefix = 8 }
    ∷ record { base = 172 ∷ 16 ∷ 0 ∷ 0 ∷ []; prefix = 12 }
    ∷ record { base = 192 ∷ 168 ∷ 0 ∷ 0 ∷ []; prefix = 16 }
    ∷ record { base = 0 ∷ 0 ∷ 0 ∷ 0 ∷ []; prefix = 8 }
    ∷ record { base = 255 ∷ 255 ∷ 255 ∷ 255 ∷ []; prefix = 32 }
    ∷ record { base = 100 ∷ 64 ∷ 0 ∷ 0 ∷ []; prefix = 10 }
    ∷ []

unfoldable pub in_blocks : List Cidr → Bytes → Bool
unfolding contains_from
in_blocks blocks ip = any (λ c. contains_from c.base c.prefix ip) blocks

-- For each IPv4 address the classifier answers whether one of the documented blocks has it.
pub is_blocked_ip-v4 :
    (a b c d : ℕ)
    → a < 256
    → b < 256
    → c < 256
    → d < 256
    → is_blocked_ip (some (a ∷ b ∷ c ∷ d ∷ [])) ≡ in_blocks blocked_v4 (a ∷ b ∷ c ∷ d ∷ [])
unfolding is_blocked_ip in_blocks
is_blocked_ip-v4 a b c d ha hb hc hd = ground arith

-- Every IPv6 block that is documented as blocked.
abbrev pub blocked_v6 : List Cidr
blocked_v6 =
    record {
      base = 0 ∷ 0 ∷ 0 ∷ 0 ∷ 0 ∷ 0 ∷ 0 ∷ 0 ∷ 0 ∷ 0 ∷ 0 ∷ 0 ∷ 0 ∷ 0 ∷ 0 ∷ 1 ∷ [];
      prefix = 128;
    }
    ∷ record { base = 254 ∷ 128 ∷ []; prefix = 10 }
    ∷ record { base = 255 ∷ []; prefix = 8 }
    ∷ record {
      base = 0 ∷ 0 ∷ 0 ∷ 0 ∷ 0 ∷ 0 ∷ 0 ∷ 0 ∷ 0 ∷ 0 ∷ 0 ∷ 0 ∷ 0 ∷ 0 ∷ 0 ∷ 0 ∷ [];
      prefix = 128;
    }
    ∷ record { base = 252 ∷ []; prefix = 7 }
    ∷ record { base = 0 ∷ 100 ∷ 255 ∷ 155 ∷ 0 ∷ 0 ∷ 0 ∷ 0 ∷ 0 ∷ 0 ∷ 0 ∷ 0 ∷ []; prefix = 96 }
    ∷ record { base = 0 ∷ 100 ∷ 255 ∷ 155 ∷ 0 ∷ 1 ∷ []; prefix = 48 }
    ∷ []

-- For each IPv6 address that maps no IPv4 address the classifier answers whether one of the documented
-- blocks has it.
pub is_blocked_ip-v6 :
    (a b c d e f g h i j k l m n o p : ℕ)
    → a < 256
    → b < 256
    → let ip = a ∷ b ∷ c ∷ d ∷ e ∷ f ∷ g ∷ h ∷ i ∷ j ∷ k ∷ l ∷ m ∷ n ∷ o ∷ p ∷ [] in
      to4 ip ≡ none → is_blocked_ip (some ip) ≡ in_blocks blocked_v6 ip
unfolding is_blocked_ip in_blocks
is_blocked_ip-v6 a b c d e f g h i j k l m n o p ha hb v6 = ground arith

not_length : (n m : ℕ) → n ≢ m → (n == m) ≡ false
not_length n m h = ground arith

-- A byte slice that is no address, neither of 4 nor of 16 bytes, is let through, unless it is nil.
pub is_blocked_ip-invalid :
    (ip : Bytes) → length ip ≢ 4 → length ip ≢ 16 → is_blocked_ip (some ip) ≡ false
unfolding is_blocked_ip
is_blocked_ip-invalid ip h k = rw (not_length (length ip) 4 h, not_length (length ip) 16 k) refl
