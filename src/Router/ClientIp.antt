-- ===== src/Router/ClientIp.antt =====
-- Whom a request is counted against, rust/libraries/cgn-ratelimit/src/lib.rs: the client's address
-- and the networks of trusted proxies. An address is its number, of 32 or of 128 bits. `Parser` stands
-- for trimming and for reading an address from text.
pub mod Hops
use cognitora_inference.Prelude.{
  ℕ, ◌-◌, ◌/◌, ◌^◌, Bool, true, false, Option, none, some, List, [], ◌∷◌, leb, ◌==◌, if◌then◌else◌,
  any, reverse,
}
use cognitora_inference.Router.Authz.{Text}
use cognitora_inference.Router.ApiKeys.{split_on}

pub data IpAddr : Type 0 where
  v4 v6 : ℕ → IpAddr

pub record Cidr : Type 0 where
  pub net : IpAddr
  pub bits : ℕ

abbrev pub width : IpAddr → ℕ
width (v4 a) = 32
width (v6 a) = 128

-- `Cidr::parse` after the address and the length were read: a missing length is the whole width.
unfoldable pub parsed : IpAddr → Option ℕ → Option Cidr
parsed ip none = some (record { net = ip; bits = width ip })
parsed ip (some bits) =
    if leb bits (width ip) then some (record { net = ip; bits = bits }) else none

-- `v >> (width - bits)`, and 0 for no bits.
unfoldable pub shifted : ℕ → ℕ → ℕ → ℕ
shifted bits v w = if bits == 0 then 0 else v / 2 ^ (w - bits)

abbrev pub same_network : ℕ → IpAddr → IpAddr → Bool
same_network bits (v4 a) (v4 b) = shifted bits a 32 == shifted bits b 32
same_network bits (v6 a) (v6 b) = shifted bits a 128 == shifted bits b 128
same_network bits (v4 a) (v6 b) = false
same_network bits (v6 a) (v4 b) = false

unfoldable pub contains : Cidr → IpAddr → Bool
contains c ip = same_network c.bits c.net ip

unfoldable pub is_trusted : List Cidr → IpAddr → Bool
unfolding contains
is_trusted trusted ip = any (λ c. contains c ip) trusted

pub record Parser : Type 0 where
  pub trim : Text → Text
  pub parse : Text → Option IpAddr

-- `rsplit`: the pieces between the separators, the last one first.
unfoldable pub rsplit : ℕ → Text → List Text
unfolding split_on
rsplit mark s = reverse (split_on mark [] s)

module _ (parser : Parser) where
  open parser use {trim, parse}

  -- The walk over the hops; `client` is the last address that was read.
  unfoldable pub walk_hops : (IpAddr → Bool) → IpAddr → List Text → IpAddr
  walk_hops trusted client [] = client
  walk_hops trusted client (hop ∷ hops) = elim (parse (trim hop)) [
    | none ↦ client
    | some ip ↦ let further = walk_hops trusted ip hops in if trusted ip then further else ip
  ]

  abbrev pub unwrap_or_empty : Option Text → Text
  unwrap_or_empty none = []
  unwrap_or_empty (some s) = s

  unfoldable pub client_ip : Option IpAddr → Option Text → (IpAddr → Bool) → Option IpAddr
  unfolding walk_hops rsplit
  client_ip none xff trusted = none
  client_ip (some peer) xff trusted =
      if trusted peer
      then some (walk_hops trusted peer (rsplit b',' (unwrap_or_empty xff)))
      else some peer
