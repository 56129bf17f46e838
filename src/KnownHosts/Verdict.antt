-- ===== src/KnownHosts/Verdict.antt =====
-- The verdict on a key, line by line in any order.
use rpi_omt_client.Prelude.{
  ℕ, ◌≡◌, refl, Bool, false, not, ◌&&◌, ◌||◌, Option, List, [], ◌∷◌, arith, ◌==◌, if◌then◌else◌,
  length, any, equal, Bytes, Bool-cases, inl, inr,
}
use rpi_omt_client.Wire.{split_on}
use rpi_omt_client.KnownHosts.{
  HostStatus, known, unknown, changed, revoked, Line, skipped, revokes, trusts, line_of, non_empty,
  split_blank, strip_return, Found, status, is_offered, hosts_match, blob_type, after_line,
  after_lines, read_lines, parse, pieces, lookup_name,
}

abbrev pub reading : Bytes → Line
reading l = line_of (non_empty (split_blank (strip_return l)))

-- What a line says of the key that a server offers.
abbrev pub revokes_key : Bytes → Line → Bool
revokes_key key (revokes k) = is_offered key k
revokes_key key _ = false

module _ (hmac : Bytes → Bytes → Option Bytes) (name : Bytes) where
  abbrev pub trusts_key : Bytes → Line → Bool
  trusts_key key (trusts hosts k) = hosts_match hmac hosts name && is_offered key k
  trusts_key key _ = false

  abbrev pub has_type : Bytes → Line → Bool
  has_type key (trusts hosts k) =
      hosts_match hmac hosts name
      && (not (length (blob_type key) == 0) && equal (blob_type k) (blob_type key))
  has_type key _ = false

-- The verdict from what the lines say, a revocation first.
abbrev pub verdict : (is_revoked is_known same_type : Bool) → HostStatus
verdict is_revoked is_known same_type =
    if is_revoked
    then revoked
    else if is_known
    then known
    else if same_type
    then changed
    else unknown

module _ (hmac : Bytes → Bytes → Option Bytes) (lossy : Bytes → Bytes) (name key : Bytes) where
  -- What has been found, as three facts about the lines.
  record Says (f g : Found) (r t s : Bool) : Type 0 where
    revoked_is : g.is_revoked ≡ (f.is_revoked || r)
    known_is : g.is_known ≡ (f.is_known || t)
    type_is : g.same_type ≡ (f.same_type || s)

  after_line-Says :
      (f : Found) (l : Line)
      → Says f
          (after_line hmac lossy name key f l)
          (revokes_key key l)
          (trusts_key hmac name key l)
          (has_type hmac name key l)
  unfolding after_line
  after_line-Says f skipped = record {
    revoked_is = ground arith;
    known_is = ground arith;
    type_is = ground arith;
  }
  after_line-Says f (revokes k) = record {
    revoked_is = ground arith;
    known_is = ground arith;
    type_is = ground arith;
  }
  after_line-Says f (trusts hosts k) = elim (Bool-cases (hosts_match hmac hosts name)) [
    | inl e ↦
        rw e (record { revoked_is = ground arith; known_is = ground arith; type_is = ground arith })
    | inr e ↦
        rw e (record { revoked_is = ground arith; known_is = ground arith; type_is = ground arith })
  ]

  Says-both :
      (f g h : Found) (r r' t t' s s' : Bool)
      → Says f g r t s
      → Says g h r' t' s'
      → Says f h (r || r') (t || t') (s || s')
  Says-both f g h r r' t t' s s' v w = record {
    revoked_is = ground (arith, v.revoked_is, w.revoked_is);
    known_is = ground (arith, v.known_is, w.known_is);
    type_is = ground (arith, v.type_is, w.type_is);
  }

  after_lines-Says :
      (f : Found) (ls : List Bytes)
      → Says f
          (after_lines hmac lossy name key f ls)
          (any (λ l. revokes_key key (reading l)) ls)
          (any (λ l. trusts_key hmac name key (reading l)) ls)
          (any (λ l. has_type hmac name key (reading l)) ls)
  unfolding after_lines
  after_lines-Says f [] = record {
    revoked_is = ground arith;
    known_is = ground arith;
    type_is = ground arith;
  }
  after_lines-Says f (l ∷ ls) =
      let g = after_line hmac lossy name key f (reading l) in
      Says-both f g (after_lines hmac lossy name key g ls) (revokes_key key (reading l)) _
        (trusts_key hmac name key (reading l)) _ (has_type hmac name key (reading l)) _
        (after_line-Says f (reading l)) (after_lines-Says g ls)

module _ (hmac : Bytes → Bytes → Option Bytes) (lossy : Bytes → Bytes) where
  -- Whatever the text of the file, the answer on a key is the one that three questions about its
  -- lines give, in whatever order they stand: revoked when a line revokes the key, else known when a
  -- line for this host holds it, else changed when a line for this host holds a key of the same
  -- type, else unknown; a line that is not read counts for none of them.
  pub parse-verdict :
      (text : Bytes) (host : List ℕ) (port : ℕ) (key : Bytes) (types : Option Bytes)
      → (parse hmac lossy text host port key types).0
        ≡ verdict
            (any (λ l. revokes_key key (reading l)) (pieces (split_on 0x0a text)))
            (any
              (λ l. trusts_key hmac (lookup_name host port) key (reading l))
              (pieces (split_on 0x0a text)))
            (any
              (λ l. has_type hmac (lookup_name host port) key (reading l))
              (pieces (split_on 0x0a text)))
  unfolding parse read_lines status
  parse-verdict text host port key types =
      let v =
        after_lines-Says hmac lossy (lookup_name host port) key
          (record { is_known = false; is_revoked = false; same_type = false; types = types })
          (pieces (split_on 0x0a text)) in
      rw (v.revoked_is, v.known_is, v.type_is) refl
