-- ===== src/KnownHosts/Globs.antt =====
-- The loop of `glob` against the usual meaning of a pattern.
use rpi_omt_client.Prelude.{
  ℕ, zero, suc, ◌+◌, ◌*◌, ◌≤◌, ◌<◌, ◌≡◌, refl, subst, ◌∙◌, Bool, true, false, ◌&&◌, ◌||◌, none,
  some, [], ◌∷◌, arith, ◌==◌, eq_ignore_ascii_case, if◌then◌else◌, length, has_byte, Bytes, ==_iff,
  Bool-cases, inl, inr,
}
use mathlib.Core.Path.{fun_ext}
use rpi_omt_client.KnownHosts.{
  move, only_stars, Star, backtrack, moved, glob_rounds, glob_count, glob,
}

-- A star matches any run; `rest` says what follows it.
unfoldable pub after_star : (Bytes → Bool) → Bytes → Bool
after_star rest [] = rest []
after_star rest (x ∷ s) = rest (x ∷ s) || after_star rest s

unfoldable pub after_one : ℕ → (Bytes → Bool) → Bytes → Bool
after_one c rest [] = false
after_one c rest (x ∷ s) = ((c == b'?') || eq_ignore_ascii_case c x) && rest s

unfoldable pub matches : Bytes → Bytes → Bool
matches [] s = length s == 0
matches (c ∷ p) s = if c == b'*' then after_star (matches p) s else after_one c (matches p) s

-- `n` for each byte.
abbrev times : ℕ → Bytes → ℕ
times n [] = 0
times n (x ∷ xs) = n + times n xs

-- What a star that the loop has passed can still match.
retried : Star → Bool
retried none = false
retried (some (q, [])) = false
retried (some (q, y ∷ t)) = after_star (matches q) t

-- A later start of the last star does no better than the pattern and the text that are left.
abbrev Covers : Star → Bytes → Bytes → Type 0
Covers none s p = Unit {0}
Covers (some (q, t)) s p = after_star (matches q) t ≡ true → after_star (matches p) s ≡ true

-- The rounds that are still needed: `k` for a byte of the pattern behind the star, `w` for one of the text.
abbrev needed : ℕ → ℕ → Star → Bytes → ℕ
needed k w none p = times k p + k
needed k w (some (q, t)) p = times k q + times w t + length p

-- What the loop keeps of the last star.
abbrev IsHeld : ℕ → ℕ → Star → Bytes → Bytes → Type 0
IsHeld k w none s p = Unit {0}
IsHeld k w (some (q, t)) s p =
    (length q < w)
    × (times w t + w ≤ k)
    × (times k p ≤ times k q)
    × (length s ≤ length t)
    × (has_byte b'*' t ≡ false)

record IsRunning (k w : ℕ) (star : Star) (s p : Bytes) : Type 0 where
  short : length p < w
  room : times w s + w ≤ k
  plain : has_byte b'*' s ≡ false
  held : IsHeld k w star s p
  covers : Covers star s p

after_star-here : (m : Bytes → Bool) (s : Bytes) → m s ≡ true → after_star m s ≡ true
unfolding after_star
after_star-here m [] h = h
after_star-here m (x ∷ s) h = ground (arith, h)

after_star-tail :
    (m : Bytes → Bool) (x : ℕ) (s : Bytes) → after_star m s ≡ true → after_star m (x ∷ s) ≡ true
unfolding after_star
after_star-tail m x s h = ground (arith, h)

after_star_twice :
    (m : Bytes → Bool) (s : Bytes) → after_star (after_star m) s ≡ true → after_star m s ≡ true
unfolding after_star
after_star_twice m [] h = h
after_star_twice m (x ∷ s) h = ground (arith, h, after_star_twice m s)

-- What a byte of the pattern that is no star leaves of a later match.
after_star-after_one :
    (c : ℕ) (m : Bytes → Bool) (x : ℕ) (s : Bytes)
    → after_star (after_one c m) (x ∷ s) ≡ true
    → after_star m s ≡ true
unfolding after_star after_one
after_star-after_one c m x [] h = ground (arith, h)
after_star-after_one c m x (y ∷ s) h =
    ground (arith, h, after_star-after_one c m y s, after_star-here m (y ∷ s))

only_stars-matches : (p : Bytes) → only_stars p ≡ matches p []
unfolding only_stars matches after_star after_one
only_stars-matches [] = refl
only_stars-matches (c ∷ p) = ground (arith, only_stars-matches p)

retried_again : (q t : Bytes) → (matches q t || retried (some (q, t))) ≡ after_star (matches q) t
unfolding after_star retried
retried_again q [] = ground arith
retried_again q (z ∷ t) = refl

matches-literal :
    (x c : ℕ) (s p : Bytes)
    → ((c == b'?') || eq_ignore_ascii_case c x) ≡ true
    → has_byte b'*' (x ∷ s) ≡ false
    → (c == b'*') ≡ false
unfolding has_byte
matches-literal x c s p h k = ground (arith, h, k)

-- A loop that answers as the meaning does, in every state that needs fewer rounds than it has.
abbrev IsRight : (k w n : ℕ) → (Bytes → Bytes → Star → Bool) → Type 0
IsRight k w n loop =
    (star : Star) (s p : Bytes)
    → IsRunning k w star s p
    → needed k w star p < n
    → loop s p star ≡ (matches p s || retried star)

matches-one : (c : ℕ) (p : Bytes) → (c == b'*') ≡ false → matches (c ∷ p) ≡ after_one c (matches p)
unfolding matches
matches-one c p e = fun_ext λ s. rw e refl

Covers-literal :
    (star : Star) (x c : ℕ) (s p : Bytes)
    → (c == b'*') ≡ false
    → Covers star (x ∷ s) (c ∷ p)
    → Covers star s p
Covers-literal none x c s p e h = tt
Covers-literal (some (q, t)) x c s p e h = λ m.
    after_star-after_one c (matches p) x s
      (subst (λ (f : Bytes → Bool). after_star f (x ∷ s) ≡ true) (matches-one c p e) (h m))

retried_absorbed :
    (star : Star) (x : ℕ) (s p : Bytes)
    → Covers star (x ∷ s) (b'*' ∷ p)
    → retried star ≡ true
    → after_star (matches p) (x ∷ s) ≡ true
unfolding retried matches
retried_absorbed none x s p h r = cc
retried_absorbed (some (q, [])) x s p h r = cc
retried_absorbed (some (q, y ∷ t)) x s p h r =
    after_star_twice (matches p) (x ∷ s) (h (after_star-tail (matches q) y t r))

retried_at_end :
    (star : Star) (p : Bytes) → Covers star [] p → retried star ≡ true → matches p [] ≡ true
unfolding retried after_star
retried_at_end none p h r = cc
retried_at_end (some (q, [])) p h r = cc
retried_at_end (some (q, y ∷ t)) p h r = h (after_star-tail (matches q) y t r)

plain_tail : (y : ℕ) (t : Bytes) → has_byte b'*' (y ∷ t) ≡ false → has_byte b'*' t ≡ false
unfolding has_byte
plain_tail y t h = ground (arith, h)

mismatch_end : (x : ℕ) (s : Bytes) → matches [] (x ∷ s) ≡ false
unfolding matches
mismatch_end x s = ground arith

mismatch :
    (x c : ℕ) (s p : Bytes)
    → ((c == b'?') || eq_ignore_ascii_case c x) ≡ false
    → (c == b'*') ≡ false
    → matches (c ∷ p) (x ∷ s) ≡ false
unfolding matches after_one
mismatch x c s p e d = rw (d, e) refl

module _ (k w n : ℕ) (loop : Bytes → Bytes → Star → Bool) (right : IsRight k w n loop) where
  -- The step of a literal.
  literal-IsRunning :
      (star : Star) (x c : ℕ) (s p : Bytes)
      → (c == b'*') ≡ false
      → IsRunning k w star (x ∷ s) (c ∷ p)
      → IsRunning k w star s p
  unfolding has_byte
  literal-IsRunning none x c s p e r = record {
    short = ground (arith, r.short);
    room = ground (arith, r.room);
    plain = ground (arith, r.plain);
    held = tt;
    covers = tt;
  }
  literal-IsRunning (some (q, t)) x c s p e r = record {
    short = ground (arith, r.short);
    room = ground (arith, r.room);
    plain = ground (arith, r.plain);
    held = ground (arith, r.held);
    covers = Covers-literal (some (q, t)) x c s p e r.covers;
  }

  needed-literal :
      (star : Star) (c : ℕ) (p : Bytes)
      → 0 < k
      → needed k w star (c ∷ p) < suc n
      → needed k w star p < n
  needed-literal none c p h m = omega arith
  needed-literal (some (q, t)) c p h m = omega arith

  literal_step :
      (star : Star) (x c : ℕ) (s p : Bytes)
      → ((c == b'?') || eq_ignore_ascii_case c x) ≡ true
      → IsRunning k w star (x ∷ s) (c ∷ p)
      → needed k w star (c ∷ p) < suc n
      → loop s p star ≡ (matches (c ∷ p) (x ∷ s) || retried star)
  unfolding after_one
  literal_step star x c s p h r m =
      let e : (c == b'*') ≡ false = matches-literal x c s p h r.plain in
      right star s p (literal-IsRunning star x c s p e r)
        (needed-literal star c p (omega (arith, r.room, r.short)) m)
      ∙ rw (matches-one c p e, h) refl

  -- The step of a star: it takes the place of the one before.
  starred-IsRunning :
      (star : Star) (x c : ℕ) (s p : Bytes)
      → IsRunning k w star (x ∷ s) (c ∷ p)
      → IsRunning k w (some (p, x ∷ s)) (x ∷ s) p
  starred-IsRunning star x c s p r = record {
    short = omega (arith, r.short);
    room = r.room;
    plain = r.plain;
    held = (omega (arith, r.short), r.room, omega arith, omega arith, r.plain);
    covers = λ m. m;
  }

  needed-starred :
      (star : Star) (x c : ℕ) (s p : Bytes)
      → IsRunning k w star (x ∷ s) (c ∷ p)
      → needed k w star (c ∷ p) < suc n
      → needed k w (some (p, x ∷ s)) p < n
  needed-starred none x c s p r m = omega (arith, r.room, r.short)
  needed-starred (some (q, t)) x c s p r m = ground (arith, r.room, r.short, r.held)

  starred_step :
      (star : Star) (x : ℕ) (s p : Bytes)
      → IsRunning k w star (x ∷ s) (b'*' ∷ p)
      → needed k w star (b'*' ∷ p) < suc n
      → loop (x ∷ s) p (some (p, x ∷ s)) ≡ (matches (b'*' ∷ p) (x ∷ s) || retried star)
  unfolding matches
  starred_step star x s p r m =
      right (some (p, x ∷ s)) (x ∷ s) p (starred-IsRunning star x b'*' s p r)
        (needed-starred star x b'*' s p r m)
      ∙ (retried_again p (x ∷ s)
          ∙ ground (arith, retried_absorbed star x s p r.covers, Bool-cases (retried star)))

  -- Nothing fits: the last star takes one byte more.
  stuck_step :
      (star : Star) (x : ℕ) (s p : Bytes)
      → matches p (x ∷ s) ≡ false
      → IsRunning k w star (x ∷ s) p
      → needed k w star p < suc n
      → backtrack loop star ≡ (matches p (x ∷ s) || retried star)
  unfolding backtrack retried
  stuck_step none x s p e r m = rw e refl
  stuck_step (some (q, [])) x s p e r m = absurd (ground (arith, r.held))
  stuck_step (some (q, y ∷ t)) x s p e r m = rw e (
      right (some (q, t)) t q
        (record {
          short = ground (arith, r.held);
          room = ground (arith, r.held);
          plain = plain_tail y t r.held.4;
          held = (
            ground (arith, r.held),
            ground (arith, r.held),
            omega arith,
            omega arith,
            plain_tail y t r.held.4,
          );
          covers = λ h. h;
        })
        (ground (arith, r.held, r.short))
      ∙ retried_again q t)

  moved_step :
      (star : Star) (x : ℕ) (s p : Bytes)
      → IsRunning k w star (x ∷ s) p
      → needed k w star p < suc n
      → moved loop x s star (move x p) ≡ (matches p (x ∷ s) || retried star)
  unfolding moved move
  moved_step star x s [] r m = stuck_step star x s [] (mismatch_end x s) r m
  moved_step star x s (c ∷ p) r m = elim (Bool-cases ((c == b'?') || eq_ignore_ascii_case c x)) [
    | inl e ↦ rw e (literal_step star x c s p e r m)
    | inr e ↦ rw e (elim (Bool-cases (c == b'*')) [
      | inl d ↦ rw ((==_iff c b'*').0 d) (
          starred_step star x s p
            (subst (λ (j : ℕ). IsRunning k w star (x ∷ s) (j ∷ p)) ((==_iff c b'*').0 d) r)
            (subst (λ (j : ℕ). needed k w star (j ∷ p) < suc n) ((==_iff c b'*').0 d) m))
      | inr d ↦ rw d (stuck_step star x s (c ∷ p) (mismatch x c s p e d) r m)
    ])
  ]

glob_rounds-IsRight : (k w n : ℕ) → IsRight k w n (glob_rounds n)
unfolding glob_rounds
glob_rounds-IsRight k w zero star s p r m = absurd (omega arith)
glob_rounds-IsRight k w (suc n) star [] p r m =
    only_stars-matches p ∙ ground (arith, retried_at_end star p r.covers, Bool-cases (retried star))
glob_rounds-IsRight k w (suc n) star (x ∷ s) p r m =
    moved_step k w n (glob_rounds n) (glob_rounds-IsRight k w n) star x s p r m

times_lem : (n : ℕ) (xs : Bytes) → times n xs ≡ length xs * n
times_lem n [] = omega arith
times_lem n (x ∷ xs) = grind (arith, times_lem n xs)

-- The loop of `glob` answers as the meaning of the pattern does, for a text with no star.
pub glob-matches : (s p : Bytes) → has_byte b'*' s ≡ false → glob s p ≡ matches p s
unfolding glob retried
glob-matches s p h =
    let w = length p + 1 in
    let k = (length s + 1) * w in
    glob_rounds-IsRight k w (glob_count s p) none s p
      (record {
        short = omega arith;
        room = grind (arith, times_lem w s);
        plain = h;
        held = tt;
        covers = tt;
      })
      (grind (arith, times_lem k p))
    ∙ ground arith
