-- ===== src/Target/Dialable.antt =====
-- What an accepted direct target is.
use rpi_omt_client.Prelude.{
  ℕ, ◌≤◌, ◌<◌, ◌≡◌, refl, sym, subst, true, false, ◌==◌, Option, none, some, arith, length, Bytes,
  Result, ok, err, codes, strip_prefix, Option-cases, Bool-cases, inl, inr,
}
use rpi_omt_client.Decimal.{parse_u64}
use rpi_omt_client.Decimal.Strict.{parse_u64-le}
use rpi_omt_client.Protocol.{ProtoError}
use rpi_omt_client.Target.{
  DirectTarget, Authority, Ipv4Addr, Ipv6Addr, is_undiallable_ipv4, is_undiallable_ipv6, target,
  bracketed_host, plain_host, with_port, valid_dns, with_authority, parse_direct_target,
  host_max_bytes, authority,
}

module _ (parse_ipv4 : Bytes → Option Ipv4Addr) (parse_ipv6 : Bytes → Option Ipv6Addr) where
  -- A literal that can be dialled, or a name of the DNS.
  pub data Dials : Bytes → Type 0 where
    literal4 :
        (h : Bytes) (a : Ipv4Addr) → parse_ipv4 h ≡ some a → is_undiallable_ipv4 a ≡ false → Dials h
    literal6 :
        (h : Bytes) (a : Ipv6Addr) → parse_ipv6 h ≡ some a → is_undiallable_ipv6 a ≡ false → Dials h
    name : (h : Bytes) → parse_ipv4 h ≡ none → valid_dns h ≡ true → Dials h

  -- A target from a host and a port.
  pub record IsTarget (host : Bytes) (port : ℕ) (t : DirectTarget) : Type 0 where
    pub host_is : t.host ≡ host
    pub port_is : t.port ≡ port
    pub short : length t.host < host_max_bytes
    pub dials : Dials host

  target-IsTarget :
      (host : Bytes) (port : ℕ) (t : DirectTarget)
      → Dials host
      → target host port ≡ ok t
      → IsTarget host port t
  target-IsTarget host port t d h = record {
    host_is = ground (arith, h);
    port_is = ground (arith, h);
    short = ground (arith, h);
    dials = d;
  }

  bracketed_host-IsTarget :
      (host : Bytes) (port : ℕ) (t : DirectTarget)
      → bracketed_host parse_ipv4 parse_ipv6 host port ≡ ok t
      → IsTarget host port t
  unfolding bracketed_host
  bracketed_host-IsTarget host port t h = elim (Option-cases (parse_ipv6 host)) [
    | inl e ↦ cc
    | inr (a, e) ↦ elim (Bool-cases (is_undiallable_ipv6 a)) [
      | inl bad ↦ ground (arith, h, e, bad)
      | inr good ↦ target-IsTarget host port t (literal6 host a e good) (ground (arith, h, e, good))
    ]
  ]

  plain_host-IsTarget :
      (host : Bytes) (port : ℕ) (t : DirectTarget)
      → plain_host parse_ipv4 parse_ipv6 host port ≡ ok t
      → IsTarget host port t
  unfolding plain_host
  plain_host-IsTarget host port t h = elim (Option-cases (parse_ipv4 host)) [
    | inl e ↦ elim (Bool-cases (valid_dns host)) [
      | inl good ↦ target-IsTarget host port t (name host e good) (ground (arith, h, e, good))
      | inr bad ↦ ground (arith, h, e, bad)
    ]
    | inr (a, e) ↦ elim (Bool-cases (is_undiallable_ipv4 a)) [
      | inl bad ↦ ground (arith, h, e, bad)
      | inr good ↦ target-IsTarget host port t (literal4 host a e good) (ground (arith, h, e, good))
    ]
  ]

  -- What an accepted target is.
  pub record IsDialable (t : DirectTarget) : Type 0 where
    pub port_low : 1 ≤ t.port
    pub port_high : t.port ≤ 65535
    pub short : length t.host < host_max_bytes
    pub dials : Dials t.host

  IsTarget-IsDialable :
      (host : Bytes) (port : ℕ) (t : DirectTarget)
      → IsTarget host port t
      → 1 ≤ port
      → port ≤ 65535
      → IsDialable t
  IsTarget-IsDialable host port t v low high = record {
    port_low = omega (arith, v.port_is);
    port_high = omega (arith, v.port_is);
    short = v.short;
    dials = subst Dials (sym v.host_is) v.dials;
  }

  with_port-IsDialable :
      (a : Authority) (o : Option ℕ) (t : DirectTarget)
      → ((p : ℕ) → o ≡ some p → p ≤ 65535)
      → with_port parse_ipv4 parse_ipv6 a o ≡ ok t
      → IsDialable t
  unfolding with_port
  with_port-IsDialable a none t le h = cc
  with_port-IsDialable a (some port) t le h = elim (Bool-cases (port == 0)) [
    | inl e ↦ ground (arith, h, e)
    | inr positive ↦ elim (Bool-cases a.bracketed) [
      | inl e ↦
          IsTarget-IsDialable a.name port t
            (bracketed_host-IsTarget a.name port t (ground (arith, h, e, positive))) (ground arith)
            (le port refl)
      | inr e ↦
          IsTarget-IsDialable a.name port t
            (plain_host-IsTarget a.name port t (ground (arith, h, e, positive))) (ground arith)
            (le port refl)
    ]
  ]

  with_authority-IsDialable :
      (r : Result ProtoError Authority) (t : DirectTarget)
      → with_authority parse_ipv4 parse_ipv6 r ≡ ok t
      → IsDialable t
  unfolding with_authority
  with_authority-IsDialable (err e) t h = cc
  with_authority-IsDialable (ok a) t h =
      with_port-IsDialable a (parse_u64 a.port_text 65535) t
        (λ p. parse_u64-le a.port_text 65535 p (omega arith)) h

  -- Whatever text is accepted as a direct target, its port is from 1 to 65535, its host is shorter
  -- than the limit, and the host is an IPv4 or IPv6 literal that can be dialled, or no IPv4 literal
  -- and a valid DNS name.
  pub parse_direct_target-IsDialable :
      (value : Bytes) (t : DirectTarget)
      → parse_direct_target parse_ipv4 parse_ipv6 value ≡ ok t
      → IsDialable t
  unfolding parse_direct_target
  parse_direct_target-IsDialable value t h =
      elim (Option-cases (strip_prefix (codes "omt://") value)) [
        | inl e ↦ ground (arith, h, e)
        | inr (auth, e) ↦ with_authority-IsDialable (authority auth) t (ground (arith, h, e))
      ]
