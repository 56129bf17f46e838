-- ===== src/Auth/Access.antt =====
-- Who is let in after a login and after a logout.
use rpi_omt_client.Prelude.{
  ℕ, zero, suc, ◌+◌, ◌-◌, ◌^◌, ◌≤◌, ◌<◌, ◌≡◌, refl, ◌∙◌, Bool, true, false, ltb, Option, none, some,
  List, [], ◌∷◌, arith, length, any, equal, Bytes, Bool-cases, lt→ltb, Option-cases, inl, inr,
}
use rpi_omt_client.Auth.{
  Record, Auth, logged_in, swap_remove, filter, position, put_fresh, evict, maximum_sessions,
  sort_by_key, write_registry, stays, fresh_record, with_fresh, save_login, authenticate, is_live,
  is_current, remove_at, revoke,
}
use rpi_omt_client.Auth.Registry.{count, count-sort_by_key, count-swap_remove, length-evict}

equal_refl : (xs : Bytes) → equal xs xs ≡ true
unfolding equal
equal_refl [] = refl
equal_refl (x ∷ xs) = ground (arith, equal_refl xs)

-- A test passes somewhere exactly when its count is not 0.
any-count : (test : Record → Bool) (rs : List Record) → any test rs ≡ ltb 0 (count test rs)
unfolding count
any-count test [] = refl
any-count test (r ∷ rs) = ground (arith, any-count test rs)

-- The fresh record is put among the others.
count-put_fresh :
    (test : Record → Bool) (fresh : Record) (rs : List Record)
    → test fresh ≡ true
    → 0 < count test (put_fresh fresh rs)
unfolding count put_fresh
count-put_fresh test fresh [] h = ground (arith, h)
count-put_fresh test fresh (r ∷ rs) h = ground (arith, h, count-put_fresh test fresh rs h)

length-put_fresh : (fresh : Record) (rs : List Record) → length (put_fresh fresh rs) ≤ length rs + 1
unfolding put_fresh
length-put_fresh fresh [] = omega arith
length-put_fresh fresh (r ∷ rs) = ground (arith, length-put_fresh fresh rs)

-- Up to the cap nothing is evicted.
evict_few : (rounds : ℕ) (rs : List Record) → length rs ≤ maximum_sessions → evict rounds rs ≡ rs
unfolding evict
evict_few zero rs h = refl
evict_few (suc rounds) rs h =
    let e : ltb maximum_sessions (length rs) ≡ false = ground arith in rw e

module _ (keyed_hex : Bytes → Option Bytes) (verify : Bytes → Bool)
    (replaces : List Record → Bool) where
  fresh_is_live :
      (a : Auth) (now : ℕ) (key : Bytes)
      → 0 < a.session_lifetime_s
      → now < 2 ^ 64 - 1
      → is_live keyed_hex verify replaces a now key
          (fresh_record keyed_hex verify replaces a now key)
        ≡ true
  fresh_is_live a now key h k = ground (arith, equal_refl key, equal_refl a.password_digest)

  -- What is written has the records that were to be written.
  written_count :
      (test : Record → Bool) (rs written : List Record)
      → write_registry keyed_hex verify replaces rs ≡ some written
      → count test written ≡ count test rs
  unfolding write_registry
  written_count test rs written h = elim (Bool-cases (replaces (sort_by_key rs))) [
    | inl e ↦ ground (arith, h, e, count-sort_by_key test rs)
    | inr e ↦ ground (arith, h, e)
  ]

  save_login_count :
      (test : Record → Bool) (disk rs written : List Record) (session session' : Bytes)
      → save_login keyed_hex verify replaces disk rs session ≡ (written, logged_in session')
      → count test written ≡ count test rs
  unfolding save_login
  save_login_count test disk rs written session session' h =
      elim (Option-cases (write_registry keyed_hex verify replaces rs)) [
        | inl e ↦ ground (arith, h, e)
        | inr (w, e) ↦ ground (arith, h, e, written_count test rs w e)
      ]

  with_fresh_count :
      (a : Auth) (disk : List Record) (now : ℕ) (previous : Option Bytes) (key : Bytes)
      → 0 < a.session_lifetime_s
      → now < 2 ^ 64 - 1
      → length (filter (stays keyed_hex verify replaces a now previous) disk) < maximum_sessions
      → 0
        < count
            (is_live keyed_hex verify replaces a now key)
            (with_fresh keyed_hex verify replaces a disk now previous key)
  unfolding with_fresh
  with_fresh_count a disk now previous key life early few =
      let others = filter (stays keyed_hex verify replaces a now previous) disk in
      let fresh = fresh_record keyed_hex verify replaces a now key in
      let records = put_fresh fresh others in
      rw (evict_few (length records) records (omega (arith, length-put_fresh fresh others))) (
        count-put_fresh (is_live keyed_hex verify replaces a now key) fresh others
          (fresh_is_live a now key life early))

  -- With a positive session lifetime, a clock below the last u64, and fewer live sessions of the
  -- present password than the cap, a login that hands out a session leaves a registry in which this
  -- session is current.
  pub authenticate-is_current :
      (a : Auth) (disk written : List Record) (password session : Bytes) (previous : Option Bytes)
      (now : ℕ)
      → 0 < a.session_lifetime_s
      → now < 2 ^ 64 - 1
      → length (filter (stays keyed_hex verify replaces a now previous) disk) < maximum_sessions
      → authenticate keyed_hex verify replaces a disk password previous now (some session)
        ≡ (written, logged_in session)
      → is_current keyed_hex verify replaces a written now session ≡ true
  unfolding authenticate is_current
  authenticate-is_current a disk written password session previous now life early few h =
      elim (Bool-cases (verify password)) [
        | inr wrong ↦ ground (arith, h, wrong)
        | inl right ↦ elim (Option-cases (keyed_hex session)) [
          | inl e ↦ ground (arith, h, right, e)
          | inr (key, e) ↦
              let test = is_live keyed_hex verify replaces a now key in
              let rs = with_fresh keyed_hex verify replaces a disk now previous key in
              let saved : save_login keyed_hex verify replaces disk rs session
                  ≡ (written, logged_in session) =
                ground (arith, h, right, e) in
              rw (e, is_current)
                (any-count test written
                  ∙ lt→ltb 0 (count test written) (
                      omega (
                        arith,
                        save_login_count test disk rs written session session saved,
                        with_fresh_count a disk now previous key life early few,
                      )))
        ]
      ]

  live_count :
      (a : Auth) (now : ℕ) (digest : Bytes) (rs : List Record)
      → count (is_live keyed_hex verify replaces a now digest) rs
        ≤ count (λ r. equal r.key digest) rs
  unfolding count
  live_count a now digest [] = omega arith
  live_count a now digest (r ∷ rs) = ground (arith, live_count a now digest rs)

  position-none :
      (test : Record → Bool) (rs : List Record) → position test rs ≡ none → count test rs ≡ 0
  unfolding position count
  position-none test [] h = refl
  position-none test (r ∷ rs) h = elim (Option-cases (position test rs)) [
    | inl e ↦ ground (arith, h, e, position-none test rs e)
    | inr (i, e) ↦ ground (arith, h, e)
  ]

  remove_at_count :
      (test : Record → Bool) (disk written : List Record) (o : Option ℕ)
      → position test disk ≡ o
      → count test disk ≤ 1
      → remove_at keyed_hex verify replaces disk o ≡ (written, none)
      → count test written ≡ 0
  unfolding remove_at
  remove_at_count test disk written none p once h = ground (arith, h, position-none test disk p)
  remove_at_count test disk written (some i) p once h =
      elim (Option-cases (write_registry keyed_hex verify replaces (swap_remove i disk))) [
        | inl e ↦ ground (arith, h, e)
        | inr (w, e) ↦ ground (
          arith,
          h,
          e,
          written_count test (swap_remove i disk) w e,
          count-swap_remove test i disk p,
        )
      ]

  -- In a registry that has each key once at most, a session that is revoked without an error is not
  -- current afterwards, at any time.
  pub revoke-is_current :
      (a : Auth) (disk written : List Record) (session : Bytes) (now : ℕ)
      → ((digest : Bytes) → count (λ r. equal r.key digest) disk ≤ 1)
      → revoke keyed_hex verify replaces disk session ≡ (written, none)
      → is_current keyed_hex verify replaces a written now session ≡ false
  unfolding revoke is_current
  revoke-is_current a disk written session now once h = elim (Option-cases (keyed_hex session)) [
    | inl e ↦ ground (arith, h, e)
    | inr (digest, e) ↦
        let test : Record → Bool = λ r. equal r.key digest in
        let removed : remove_at keyed_hex verify replaces disk (position test disk)
            ≡ (written, none) =
          ground (arith, h, e) in
        let live = is_live keyed_hex verify replaces a now digest in
        let gone : ltb 0 (count live written) ≡ false = ground (
          arith,
          live_count a now digest written,
          remove_at_count test disk written (position test disk) refl (once digest) removed,
        ) in
        rw (e, is_current) (any-count live written ∙ gone)
  ]

  -- However many sessions the registry has, the eviction loop of a login ends within a round for
  -- each of them and leaves no more than the cap.
  pub length-with_fresh :
      (a : Auth) (disk : List Record) (now : ℕ) (previous : Option Bytes) (key : Bytes)
      → length (with_fresh keyed_hex verify replaces a disk now previous key) ≤ maximum_sessions
  unfolding with_fresh
  length-with_fresh a disk now previous key =
      let records =
        put_fresh (fresh_record keyed_hex verify replaces a now key)
          (filter (stays keyed_hex verify replaces a now previous) disk) in
      length-evict (length records) records (omega arith)
