-- ===== src/Router/ClientIp/Hops.antt =====
-- What a client can and cannot choose in rust/libraries/cgn-ratelimit/src/lib.rs.
use native.Mathlib.Nat.{le-div_iff_mul-le, div-lt_iff_lt-mul}
use cognitora_inference.Prelude.{
  ℕ, zero, suc, ◌+◌, ◌*◌, ◌-◌, ◌/◌, ◌^◌, ◌≤◌, ◌<◌, ◌≡◌, refl, ◌↔◌, Bool, true, false, some, List,
  [], ◌∷◌, ◌++◌, arith, reverse, any, All, ◌==◌, ap, ◌∙◌,
}
use mathlib.Core.List.{append-nil, append_assoc, reverse-append}
use cognitora_inference.Router.Authz.{Text}
use cognitora_inference.Router.ApiKeys.{split_on}
use cognitora_inference.Router.ClientIp.{
  Parser, rsplit, IpAddr, v4, shifted, contains, walk_hops, client_ip,
}

-- Texts with commas between them, the last one first.
abbrev pub header : Text → List Text → Text
header first [] = first
header first (hop ∷ hops) = header first hops ++ (b',' ∷ hop)

abbrev pub HasNoComma : Text → Type 0
HasNoComma s = any (λ c. c == b',') s ≡ false

split_on-plain : (piece s : Text) → HasNoComma s → split_on b',' piece s ≡ (piece ++ s) ∷ []
unfolding split_on
split_on-plain piece [] h = rw (append-nil piece) refl
split_on-plain piece (c ∷ s) h =
    let rest = split_on-plain (piece ++ (c ∷ [])) s (ground (arith, h)) in
    ground (arith, h, rest, append_assoc piece (c ∷ []) s)

-- What stands before a comma is split for itself.
split_on-append :
    (piece s hop : Text)
    → HasNoComma hop
    → split_on b',' piece (s ++ (b',' ∷ hop)) ≡ split_on b',' piece s ++ (hop ∷ [])
unfolding split_on
split_on-append piece [] hop h = ap (λ ps. piece ∷ ps) (split_on-plain [] hop h)
split_on-append piece (c ∷ s) hop h =
    ground (arith, split_on-append [] s hop h, split_on-append (piece ++ (c ∷ [])) s hop h)

rsplit-header :
    (forged : Text) (hops : List Text)
    → All HasNoComma hops
    → rsplit b',' (header forged hops) ≡ hops ++ rsplit b',' forged
unfolding rsplit
rsplit-header forged [] h = refl
rsplit-header forged (hop ∷ hops) (p, h) =
    ap reverse (split_on-append [] (header forged hops) hop p)
    ∙ reverse-append (split_on b',' [] (header forged hops)) (hop ∷ [])
    ∙ ap (λ (ps : List Text). hop ∷ ps) (rsplit-header forged hops h)

module _ (parser : Parser) where
  open parser use {trim, parse}

  -- A hop that reads as an address that is trusted, without a comma.
  abbrev pub AllTrusted : (IpAddr → Bool) → List Text → Type 0
  AllTrusted trusted [] = Unit
  AllTrusted trusted (hop ∷ hops) =
      ((p : IpAddr) × (parse (trim hop) ≡ some p) × (trusted p ≡ true)) × AllTrusted trusted hops

  walk_hops-untrusted :
      (trusted : IpAddr → Bool) (client ip : IpAddr) (hop : Text) (proxies forged : List Text)
      → AllTrusted trusted proxies
      → parse (trim hop) ≡ some ip
      → trusted ip ≡ false
      → walk_hops parser trusted client (proxies ++ (hop ∷ forged)) ≡ ip
  unfolding walk_hops
  walk_hops-untrusted trusted client ip hop [] forged t r u = rw r (rw u refl)
  walk_hops-untrusted trusted client ip hop (p ∷ proxies) forged ((q, e, tq), t) r u =
      rw e (rw tq (walk_hops-untrusted trusted q ip hop proxies forged t r u))

  -- Behind a trusted peer, the client is the first address from the right of the header that is not
  -- trusted, where the entries to the right of it are trusted addresses, whatever text stands to
  -- the left of it. No entry from it on has a comma in it.
  pub client_ip-untrusted :
      (trusted : IpAddr → Bool) (peer ip : IpAddr) (hop forged : Text) (proxies : List Text)
      → trusted peer ≡ true
      → AllTrusted trusted proxies
      → All HasNoComma (proxies ++ (hop ∷ []))
      → parse (trim hop) ≡ some ip
      → trusted ip ≡ false
      → client_ip parser (some peer) (some (header forged (proxies ++ (hop ∷ [])))) trusted
        ≡ some ip
  unfolding client_ip
  client_ip-untrusted trusted peer ip hop forged proxies tp t plain r u =
      let split = rsplit-header forged (proxies ++ (hop ∷ [])) plain in
      let walk = walk_hops-untrusted trusted peer ip hop proxies (rsplit b',' forged) t r u in
      rw (tp, split, append_assoc proxies (hop ∷ []) (rsplit b',' forged), walk) refl

pow-pos : (n : ℕ) → 0 < 2 ^ n
pow-pos zero = omega arith
pow-pos (suc n) = omega (arith, pow-pos n)

shifted_lem : (bits v : ℕ) → v < 2 ^ 32 → shifted bits v 32 ≡ v / 2 ^ (32 - bits)
unfolding shifted
shifted_lem zero v h = omega arith
shifted_lem (suc bits) v h = ground arith

-- A network of at most 32 bits of IPv4 addresses holds exactly the block of addresses that begins at its address cut to
-- its bits and is as long as the other bits allow.
contains-block :
    (a b bits : ℕ)
    → a < 2 ^ 32
    → b < 2 ^ 32
    → bits ≤ 32
    → let size = 2 ^ (32 - bits) in
      (contains (record { net = v4 a; bits = bits }) (v4 b) ≡ true)
      ↔ ((a / size * size ≤ b) × (b < (a / size + 1) * size))
unfolding contains
contains-block a b bits ha hb le =
    let size = 2 ^ (32 - bits) in
    let pos = pow-pos (32 - bits) in
    let low = le-div_iff_mul-le {k = size} {x = a / size} {y = b} pos in
    let high = div-lt_iff_lt-mul {k = size} {x = b} {y = a / size + 1} pos in
    let cut_a = shifted_lem bits a ha in
    let cut_b = shifted_lem bits b hb in
    (
      λ h. ground (arith, h, low, high, cut_a, cut_b),
      λ h. ground (arith, h, low, high, cut_a, cut_b),
    )
