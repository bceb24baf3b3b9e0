-- ===== src/Camp/Parse/Laws.antt =====
-- What the parsers accept, and with which values.
use Prim.Native.Nat.{◌*◌}
use Prim.Native.String.{◌++◌}
use text.Mathlib.TextLemmas.{nil-append, cons-append}
use zero_conf_mesh.Prelude.{
  ℕ, ◌+◌, ◌-◌, ◌<◌, ◌≤◌, String, Char, code, Bool, true, false, ◌&&◌, ◌≡◌, ◌↔◌, refl, arith, some,
  ◌==◌, str-cases, ap, inl, inr,
}
use zero_conf_mesh.Prelude.Text.{trim, split_once, contains_char}
use zero_conf_mesh.Types.Announcement.{IpAddr}
use zero_conf_mesh.Config.{NetworkInterface, index_v4, index_v6}
use zero_conf_mesh.Camp.Outcome.{Outcome, done, failed, ◌>>=◌}
use zero_conf_mesh.Camp.Parse.{
  parse_key_value, is_digit, u32_limit, parse_digits, parse_u32, parse_selector,
  parse_network_interface,
}

done_eq {ℓ} : {A : Type ℓ} {a b : A} → done a ≡ done b → a ≡ b
done_eq h = cc

split_once-append :
    (sep : Char) (s t : String)
    → contains_char (code sep) s ≡ false
    → split_once (code sep) (s ++ String.◌∷◌ sep t) ≡ some (s, t)
unfolding split_once contains_char
split_once-append sep String.[] t h = rw nil-append (ground arith)
split_once-append sep (String.◌∷◌ c s) t h =
    rw cons-append (ground (arith, split_once-append sep s t))

-- A key without `=` and a value, both without white space at their ends, are parsed from the
-- option that joins them by `=`, whatever else the value holds.
pub parse_key_value-join :
    (key val : String)
    → contains_char b'=' key ≡ false
    → trim key ≡ key
    → trim val ≡ val
    → parse_key_value (key ++ ("=" ++ val)) ≡ done (key, val)
unfolding parse_key_value
parse_key_value-join key val l hk hv =
    rw (cons-append, nil-append, parse_key_value, split_once-append "=" key val l, hk, hv) refl

-- The number that decimal digits stand for, after the digits of another one.
abbrev pub decimal : ℕ → String → ℕ
decimal value String.[] = value
decimal value (String.◌∷◌ c rest) = decimal (10 * value + (code c - b'0')) rest

abbrev pub all_digits : String → Bool
all_digits String.[] = true
all_digits (String.◌∷◌ c rest) = is_digit c && all_digits rest

decimal_grows : (value : ℕ) (s : String) → value ≤ decimal value s
decimal_grows value String.[] = omega arith
decimal_grows value (String.◌∷◌ c rest) =
    omega (arith, decimal_grows (10 * value + (code c - b'0')) rest)

pub parse_digits_iff :
    (value : ℕ) (s : String) (n : ℕ)
    → value < u32_limit
    → (parse_digits value s ≡ done n)
      ↔ ((all_digits s ≡ true) × (decimal value s ≡ n) × (n < u32_limit))
unfolding parse_digits
parse_digits_iff value String.[] n h = ground arith
parse_digits_iff value (String.◌∷◌ c rest) n h =
    let next = 10 * value + (code c - b'0') in
    ground (arith, parse_digits_iff next rest n, decimal_grows next rest)

digit_not_plus : (c : Char) → is_digit c ≡ true → (String.◌∷◌ c "" == "+") ≡ false
digit_not_plus c h = elim (str-cases (String.◌∷◌ c "") "+") [
  | inl (e, p) ↦ absurd (ground (arith, ap all_digits p, h))
  | inr (e, p) ↦ e
]

pub parse_u32_iff :
    (c : Char) (s : String) (n : ℕ)
    → is_digit c ≡ true
    → (parse_u32 (String.◌∷◌ c s) ≡ done n)
      ↔ ((all_digits (String.◌∷◌ c s) ≡ true) × (decimal 0 (String.◌∷◌ c s) ≡ n) × (n < u32_limit))
unfolding parse_u32
parse_u32_iff c s n h =
    rw (digit_not_plus c h) (parse_digits_iff 0 (String.◌∷◌ c s) n (omega arith))

-- A text with a separator in it has the character.
contains_char-sep :
    (sep : Char) (s t : String) → contains_char (code sep) (s ++ String.◌∷◌ sep t) ≡ true
unfolding contains_char
contains_char-sep sep String.[] t = rw nil-append (ground arith)
contains_char-sep sep (String.◌∷◌ c s) t =
    rw cons-append (ground (arith, contains_char-sep sep s t))

differs :
    (value other : String)
    → contains_char b':' value ≡ true
    → contains_char b':' other ≡ false
    → (value == other) ≡ false
differs value other h g = elim (str-cases value other) [
  | inl (e, p) ↦ absurd (ground (arith, ap (contains_char b':') p, h, g))
  | inr (e, p) ↦ e
]

module _ (parse_ip : String → Outcome IpAddr) where
  -- A kind and what follows the first colon are parsed as a selector.
  parse_network_interface-selector :
      (kind raw : String)
      → contains_char b':' kind ≡ false
      → parse_network_interface parse_ip (kind ++ String.◌∷◌ ":" raw)
        ≡ parse_selector parse_ip kind raw
  unfolding parse_network_interface contains_char
  parse_network_interface-selector kind raw h =
      let value = kind ++ String.◌∷◌ ":" raw in
      let colon = contains_char-sep ":" kind raw in
      rw
        (
          differs value "all" colon refl,
          differs value "ipv4" colon refl,
          differs value "ipv6" colon refl,
          differs value "loopback-v4" colon refl,
          differs value "loopback-v6" colon refl,
          split_once-append ":" kind raw h,
        )
        refl

  index_iff :
      (index : ℕ → NetworkInterface) (o : Outcome ℕ) (n : ℕ)
      → ((m : ℕ) → index m ≡ index n → m ≡ n)
      → ((o >>= λ m. done (index m)) ≡ done (index n)) ↔ (o ≡ done n)
  index_iff index (failed message) n h = (λ e. cc, λ e. cc)
  index_iff index (done m) n h =
      (λ e. ap done (h m (done_eq e)), λ e. ap (λ o. o >>= λ m. done (index m)) e)

  -- If what follows the kind `index-v4` or `index-v6` and a colon begins with a digit, it is parsed as
  -- the interface of that kind with some index exactly if it has digits only and they stand for that
  -- index, which is below 2^32: leading zeros are read, and a number too large is refused.
  pub parse_network_interface-index :
      (c : Char) (s : String) (n : ℕ)
      → is_digit c ≡ true
      → let raw = String.◌∷◌ c s in
        let IsIndex = (all_digits raw ≡ true) × (decimal 0 raw ≡ n) × (n < u32_limit) in
        ((parse_network_interface parse_ip ("index-v4" ++ String.◌∷◌ ":" raw) ≡ done (index_v4 n))
          ↔ IsIndex)
        × ((parse_network_interface parse_ip ("index-v6" ++ String.◌∷◌ ":" raw) ≡ done (index_v6 n))
            ↔ IsIndex)
  unfolding parse_selector contains_char
  parse_network_interface-index c s n h =
      let raw = String.◌∷◌ c s in
      let number = parse_u32_iff c s n h in
      let v4 = index_iff index_v4 (parse_u32 raw) n (λ m e. cc) in
      let v6 = index_iff index_v6 (parse_u32 raw) n (λ m e. cc) in
      (
        rw (parse_network_interface-selector "index-v4" raw refl)
            (λ e. number.0 (v4.0 e), λ e. v4.1 (number.1 e)),
        rw (parse_network_interface-selector "index-v6" raw refl)
            (λ e. number.0 (v6.0 e), λ e. v6.1 (number.1 e)),
      )
