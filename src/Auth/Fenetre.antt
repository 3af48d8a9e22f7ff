-- ===== src/Auth/Fenetre.antt =====
-- A sliding window over instants, in milliseconds: what login-rate-limiter.service.ts does with the
-- list of one key.
use budget_backend.Base.{
  ℕ, suc, ◌+◌, ◌≤◌, ◌<◌, ◌≡◌, refl, Bool, List, [], ◌∷◌, ◌++◌, arith, ltb, leb, ◌&&◌, find_all,
  count_where, length, if◌then◌else◌,
}

-- `now - t < fenetre`, also for an instant `t` after `now`
abbrev pub is_fraiche : ℕ → ℕ → ℕ → Bool
is_fraiche fenetre now t = ltb now (t + fenetre)

-- `times.filter((t) => now - t < fenetre)`
abbrev pub fraiches : ℕ → ℕ → List ℕ → List ℕ
fraiches fenetre now = find_all (is_fraiche fenetre now)

-- The instant `t` lies in the window that begins at `w`.
abbrev pub is_dans : ℕ → ℕ → ℕ → Bool
is_dans fenetre w t = leb w t && ltb t (w + fenetre)

-- What the code keeps for a key, `times`, against all the accepted instants of the key, `hist`: the
-- same instants will be fresh from `last` on, and no window has held more than `limite`.
pub record IsJuste (fenetre limite last : ℕ) (hist times : List ℕ) : Type 0 where
  pub same_fresh :
      (now : ℕ)
      → last ≤ now
      → count_where (is_fraiche fenetre now) times ≡ count_where (is_fraiche fenetre now) hist
  pub bounded : (w : ℕ) → count_where (is_dans fenetre w) hist ≤ limite
  pub short : length times ≤ limite

count-append :
    (p : ℕ → Bool) (ts : List ℕ) (t : ℕ)
    → count_where p (ts ++ (t ∷ [])) ≡ count_where p ts + (if p t then 1 else 0)
count-append p [] t = ground arith
count-append p (x ∷ ts) t = ground (arith, count-append p ts t)

length-append : (ts : List ℕ) (t : ℕ) → length (ts ++ (t ∷ [])) ≡ suc (length ts)
length-append [] t = refl
length-append (x ∷ ts) t = ground (arith, length-append ts t)

pub length-fraiches :
    (fenetre now : ℕ) (ts : List ℕ)
    → length (fraiches fenetre now ts) ≡ count_where (is_fraiche fenetre now) ts
length-fraiches fenetre now [] = refl
length-fraiches fenetre now (t ∷ ts) = ground (arith, length-fraiches fenetre now ts)

count-fraiches :
    (fenetre now later : ℕ) (ts : List ℕ)
    → now ≤ later
    → count_where (is_fraiche fenetre later) (fraiches fenetre now ts)
      ≡ count_where (is_fraiche fenetre later) ts
count-fraiches fenetre now later [] le = refl
count-fraiches fenetre now later (t ∷ ts) le = ground (arith, count-fraiches fenetre now later ts)

-- Instants in a window that still holds `now` are fresh at `now`.
count-dans-le :
    (fenetre w now : ℕ) (ts : List ℕ)
    → now < w + fenetre
    → count_where (is_dans fenetre w) ts ≤ count_where (is_fraiche fenetre now) ts
count-dans-le fenetre w now [] h = omega arith
count-dans-le fenetre w now (t ∷ ts) h = ground (arith, count-dans-le fenetre w now ts h)

pub IsJuste-empty : (fenetre limite last : ℕ) → IsJuste fenetre limite last [] []
IsJuste-empty fenetre limite last = ground arith

pub IsJuste-later :
    (fenetre limite last later : ℕ) (hist times : List ℕ)
    → last ≤ later
    → IsJuste fenetre limite last hist times
    → IsJuste fenetre limite later hist times
IsJuste-later fenetre limite last later hist times le h = record {
  same_fresh = λ now le'. h.same_fresh now (omega arith);
  bounded = h.bounded;
  short = h.short;
}

-- An instant is accepted only where fewer than `limite` are fresh.
pub IsJuste-accept :
    (fenetre limite last now : ℕ) (hist times : List ℕ)
    → last ≤ now
    → length (fraiches fenetre now times) < limite
    → IsJuste fenetre limite last hist times
    → IsJuste fenetre limite now (hist ++ (now ∷ [])) (fraiches fenetre now times ++ (now ∷ []))
IsJuste-accept fenetre limite last now hist times le few h = record {
  same_fresh = λ later le'. ground (
    arith,
    count-append (is_fraiche fenetre later) (fraiches fenetre now times) now,
    count-append (is_fraiche fenetre later) hist now,
    count-fraiches fenetre now later times,
    h.same_fresh later,
  );
  bounded = λ w. ground (
    arith,
    count-append (is_dans fenetre w) hist now,
    count-dans-le fenetre w now hist,
    h.same_fresh now,
    h.bounded w,
    length-fraiches fenetre now times,
  );
  short = ground (arith, length-append (fraiches fenetre now times) now);
}
