-- ===== src/Swarm/MachineId/Fingerprints.antt =====
-- swarm/machineid.go: the text of a fingerprint.
use gole.Base.{
  ℕ, ◌%◌, ◌<◌, ◌≡◌, refl, ◌∙◌, ap, zero, suc, Bool, true, false, ◌&&◌, ◌||◌, leb, Option, some,
  List, [], ◌∷◌, ◌++◌, arith, Bytes, length, drop, All, nat_eq,
}
use gole.Swarm.MachineId.{
  Iface, base62_dict, primary_mac, base62_digit, bytes_to_base62, fingerprint, mac_or_empty,
  derive_fingerprint,
}

-- A digit or a letter of ASCII
abbrev pub is_alnum : ℕ → Bool
is_alnum c = (leb 48 c && leb c 57) || ((leb 65 c && leb c 90) || (leb 97 c && leb c 122))

all_alnum : Bytes → Bool
all_alnum [] = true
all_alnum (x ∷ xs) = is_alnum x && all_alnum xs

-- A place of a list at which every element passes
at_place :
    (n : ℕ) (xs : Bytes)
    → all_alnum xs ≡ true
    → n < length xs
    → is_alnum (elim (drop n xs) [ [] ↦ 0 | d ∷ ds ↦ d ]) ≡ true
unfolding all_alnum
at_place n [] h k = absurd (ground (arith, k))
at_place zero (x ∷ xs) h k = both_first (is_alnum x) (all_alnum xs) h
  where
    both_first : (a b : Bool) → (a && b) ≡ true → a ≡ true
    both_first true b h = refl
    both_first false b h = cc
at_place (suc n) (x ∷ xs) h k =
    at_place n xs (both_second (is_alnum x) (all_alnum xs) h) (ground (arith, k))
  where
    both_second : (a b : Bool) → (a && b) ≡ true → b ≡ true
    both_second true b h = h
    both_second false b h = cc

base62_digit-is_alnum : (x : ℕ) → is_alnum (base62_digit x) ≡ true
unfolding base62_digit all_alnum
base62_digit-is_alnum x = at_place (x % 62) base62_dict refl (omega arith)

-- What a text of letters and digits is, with its length
abbrev pub IsAlnumText : ℕ → Bytes → Type 0
IsAlnumText n s = (length s ≡ n) × All (λ c. is_alnum c ≡ true) s

bytes_to_base62-IsAlnumText : (b : Bytes) → IsAlnumText (length b) (bytes_to_base62 b)
unfolding bytes_to_base62
bytes_to_base62-IsAlnumText [] = (refl, tt)
bytes_to_base62-IsAlnumText (x ∷ b) =
    let (len, all) = bytes_to_base62-IsAlnumText b in (ap suc len, (base62_digit-is_alnum x, all))

-- A fingerprint consists of letters and digits of ASCII, as many as the hash has bytes; there is
-- one whenever the machine has an identifier, whatever its interfaces are.
pub derive_fingerprint-IsAlnumText :
    (hmac : Bytes → Bytes → Bytes) (n : ℕ) (mid : Bytes) (ifaces : Option (List Iface))
    (local_id role : Bytes)
    → ((key message : Bytes) → length (hmac key message) ≡ n)
    → (s : Bytes) × (derive_fingerprint hmac (some mid) ifaces local_id role ≡ some s)
      × IsAlnumText n s
unfolding derive_fingerprint fingerprint
derive_fingerprint-IsAlnumText hmac n mid ifaces local_id role h =
    let mac : Bytes = mac_or_empty (primary_mac ifaces) in
    let sum : Bytes = hmac (mid ++ (124 ∷ mac)) (local_id ++ (124 ∷ role)) in
    let (len, all) = bytes_to_base62-IsAlnumText sum in
    (bytes_to_base62 sum, refl, (len ∙ h (mid ++ (124 ∷ mac)) (local_id ++ (124 ∷ role)), all))
