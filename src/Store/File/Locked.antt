-- ===== src/Store/File/Locked.antt =====
-- What the file system's calls make of a read-modify-write of the file.
use artesca_vss_console.Common.{
  ℕ, zero, suc, ◌+◌, ◌≤◌, ◌<◌, OnValue, OnValue-at, arith, String, Bool, true, false, ◌≡◌, refl,
  sym, ap, ◌∙◌, ◌⊎◌, inl, inr, Try, value, thrown, Effect, continue, Option, some,
}
use artesca_vss_console.Store.{ConfigDoc}
use artesca_vss_console.Store.File.{
  ConfigFile, document_of, read, write_doc_atomic, with_file_lock, rewrite, mutate, take_lock,
  acquire, unless_taken, try_lock,
}

-- How a call ends: `P` where it gives a value, `Q` where it throws.
abbrev pub Ends : {W A : Type 0} → (A → W → Type 0) → (W → Type 0) → Try A × W → Type 0
Ends P Q (value a, w) = P a w
Ends P Q (thrown e, w) = Q w

Ends-bind :
    {W A B : Type 0} (P : A → W → Type 0) (Q : W → Type 0) (R : B → W → Type 0) (f : A → Effect W B)
    (t : Try A × W)
    → Ends P Q t
    → ((a : A) (w : W) → P a w → Ends R Q (f a w))
    → Ends R Q (continue t.0 f t.1)
Ends-bind P Q R f (value a, w) h k = k a w h
Ends-bind P Q R f (thrown e, w) h k = h

Ends-map :
    {W A : Type 0} (P P' : A → W → Type 0) (Q Q' : W → Type 0) (t : Try A × W)
    → Ends P Q t
    → ((a : A) (w : W) → P a w → P' a w)
    → ((w : W) → Q w → Q' w)
    → Ends P' Q' t
Ends-map P P' Q Q' (value a, w) h p q = p a w h
Ends-map P P' Q Q' (thrown e, w) h p q = q w h

-- What the file system documents, while no other writer holds the lock: a read gives what the file
-- holds; a write of the temporary file leaves the file, and has written all of it where it answers; a
-- rename puts the temporary file in the file's place or, where it throws, leaves the file; a removal
-- of the lock file leaves the file, and has removed it where it answers.
pub record HoldsText {W : Type 0} (file : ConfigFile W) (text : W → Option String)
    (tmp : W → String) (held : W → Bool) : Type 0 where
  pub reads :
      (w : W)
      → Ends
          (λ body w'. (body ≡ text w) × (text w' ≡ text w))
          (λ w'. text w' ≡ text w)
          (file.read_file w)
  pub writes :
      (body : String) (w : W)
      → Ends
          (λ _ w'. (tmp w' ≡ body) × (text w' ≡ text w))
          (λ w'. text w' ≡ text w)
          (file.write_tmp body w)
  pub renames :
      (w : W) → Ends (λ _ w'. text w' ≡ some (tmp w)) (λ w'. text w' ≡ text w) (file.rename_tmp w)
  pub removes :
      (w : W)
      → Ends
          (λ _ w'. (held w' ≡ false) × (text w' ≡ text w))
          (λ w'. text w' ≡ text w)
          (file.rm_lock w)

abbrev pub edited : String → String → (ConfigDoc → ConfigDoc) → ConfigDoc → ConfigDoc
edited who now f doc = record (f doc) { updated_by = some who; updated_at = some now }

module _ {W : Type 0} (file : ConfigFile W) where
  -- In `w'` the file holds the edit, stamped, of the document that it held in `v`.
  abbrev pub IsEdited :
      (W → Option String) → String → String → (ConfigDoc → ConfigDoc) → W → W → Type 0
  IsEdited text who now f v w' =
      (doc : ConfigDoc) × (document_of file (text v) ≡ value doc)
      × (text w' ≡ some (file.stringify_yaml (edited who now f doc)))

  -- More rounds of the loop make no difference to a lock that was taken.
  pub acquire-more :
      (n m deadline : ℕ) (w v : W)
      → n ≤ m
      → acquire file n deadline w ≡ (value tt, v)
      → acquire file m deadline w ≡ (value tt, v)
  unfolding acquire
  acquire-more zero m deadline w v le e = cc
  acquire-more (suc n) zero deadline w v le e = absurd (omega (arith, le))
  acquire-more (suc n) (suc m) deadline w v le e =
      round (try_lock file deadline w) (λ w1. acquire-more n m deadline w1 v (omega (arith, le))) e
    where
      round :
          (t : Try Bool × W)
          → ((w1 : W)
              → acquire file n deadline w1 ≡ (value tt, v)
              → acquire file m deadline w1 ≡ (value tt, v))
          → continue t.0 (unless_taken file (acquire file n deadline)) t.1 ≡ (value tt, v)
          → continue t.0 (unless_taken file (acquire file m deadline)) t.1 ≡ (value tt, v)
      round (thrown _, w1) later h = h
      round (value true, w1) later h = h
      round (value false, w1) later h = later w1 h

  round_same :
      (f g : Effect W Unit) (t : Try Bool × W)
      → ((w1 : W) → t ≡ (value false, w1) → f w1 ≡ g w1)
      → continue t.0 (unless_taken file f) t.1 ≡ continue t.0 (unless_taken file g) t.1
  round_same f g (thrown _, w1) h = refl
  round_same f g (value true, w1) h = refl
  round_same f g (value false, w1) h = h w1 refl

module _ {W : Type 0} (file : ConfigFile W) (time : W → ℕ) (deadline : ℕ)
    (waits : (w : W)
      → OnValue
          (λ taken w'. taken ≡ false → (time w < time w') × (time w ≤ deadline))
          (try_lock file deadline w)) where
  -- Where a round after which the lock is tried for again takes time and began by the deadline, as
  -- many rounds as there is time left are enough: more of them make no difference, however the
  -- attempt ends.
  pub acquire_enough :
      (k m : ℕ) (w : W)
      → deadline < k + time w
      → suc k ≤ m
      → acquire file (suc k) deadline w ≡ acquire file m deadline w
  unfolding acquire
  acquire_enough k zero w late le = absurd (omega (arith, le))
  acquire_enough zero (suc m) w late le =
      round_same file _ _ (try_lock file deadline w) (λ w1 again.
        let (_, early) = OnValue-at _ (try_lock file deadline w) (waits w) false w1 again refl in
        absurd (omega (arith, early, late)))
  acquire_enough (suc k) (suc m) w late le =
      round_same file _ _ (try_lock file deadline w) (λ w1 again.
        let (later, _) = OnValue-at _ (try_lock file deadline w) (waits w) false w1 again refl in
        acquire_enough k m w1 (omega (arith, late, later)) (omega (arith, le)))

module _ {W : Type 0} (file : ConfigFile W) (text : W → Option String) (tmp : W → String)
    (held : W → Bool) (c : HoldsText file text tmp held) where
  document-Ends :
      (v w1 : W) (t : Try ConfigDoc)
      → t ≡ document_of file (text v)
      → text w1 ≡ text v
      → Ends
          (λ doc w'. (document_of file (text v) ≡ value doc) × (text w' ≡ text v))
          (λ w'. text w' ≡ text v)
          (t, w1)
  document-Ends v w1 (value doc) e same = (sym e, same)
  document-Ends v w1 (thrown _) e same = same

  read-Ends :
      (v : W)
      → Ends
          (λ doc w'. (document_of file (text v) ≡ value doc) × (text w' ≡ text v))
          (λ w'. text w' ≡ text v)
          (read file v)
  read-Ends v =
      Ends-bind (λ body w'. (body ≡ text v) × (text w' ≡ text v)) (λ w'. text w' ≡ text v) _
        (λ body w. (document_of file body, w)) (file.read_file v) (c.reads v)
        (λ body w1 (e, same).
          document-Ends v w1 (document_of file body) (ap (document_of file) e) same)

  write-Ends :
      (doc : ConfigDoc) (w : W)
      → Ends
          (λ _ w'. text w' ≡ some (file.stringify_yaml doc))
          (λ w'. text w' ≡ text w)
          (write_doc_atomic file doc w)
  unfolding write_doc_atomic
  write-Ends doc w =
      let body = file.stringify_yaml doc in
      Ends-bind (λ _ w'. (tmp w' ≡ body) × (text w' ≡ text w)) (λ w'. text w' ≡ text w) _
        (λ _. file.rename_tmp) (file.write_tmp body w) (c.writes body w)
        (λ _ w1 (written, same).
          Ends-map (λ _ w'. text w' ≡ some (tmp w1)) (λ _ w'. text w' ≡ some body)
            (λ w'. text w' ≡ text w1) (λ w'. text w' ≡ text w) (file.rename_tmp w1) (c.renames w1)
            (λ _ w' e. e ∙ ap some written) (λ w' e. e ∙ same))

  rewrite-Ends :
      (who now : String) (f : ConfigDoc → ConfigDoc) (v : W)
      → Ends
          (λ _. IsEdited file text who now f v)
          (λ w'. text w' ≡ text v)
          (rewrite file who now f v)
  rewrite-Ends who now f v =
      Ends-bind (λ doc w'. (document_of file (text v) ≡ value doc) × (text w' ≡ text v))
        (λ w'. text w' ≡ text v) _ (λ doc. write_doc_atomic file (edited who now f doc))
        (read file v) (read-Ends v)
        (λ doc w1 (e, same).
          Ends-map (λ _ w'. text w' ≡ some (file.stringify_yaml (edited who now f doc)))
            (λ _. IsEdited file text who now f v) (λ w'. text w' ≡ text w1) (λ w'. text w' ≡ text v)
            (write_doc_atomic file (edited who now f doc) w1) (write-Ends (edited who now f doc) w1)
            (λ _ w' h. (doc, e, h)) (λ w' h. h ∙ same))

  removed-text :
      (u : W) (t : Try Unit × W)
      → Ends (λ _ w'. (held w' ≡ false) × (text w' ≡ text u)) (λ w'. text w' ≡ text u) t
      → (text t.1 ≡ text u) × ((held t.1 ≡ false) ⊎ ((e : String) × (t.0 ≡ thrown e)))
  removed-text u (value _, w') (free, same) = (same, inl free)
  removed-text u (thrown e, w') same = (same, inr (e, refl))

  finally-Ends :
      (who now : String) (f : ConfigDoc → ConfigDoc) (v : W) (t : Try Unit × W)
      → text (file.rm_lock t.1).1 ≡ text t.1
      → Ends (λ _. IsEdited file text who now f v) (λ w'. text w' ≡ text v) t
      → Ends
          (λ _. IsEdited file text who now f v)
          (λ w'. text w' ≡ text v)
          (t.0, (file.rm_lock t.1).1)
  finally-Ends who now f v (value a, u) same (doc, e, h) = (doc, e, same ∙ h)
  finally-Ends who now f v (thrown _, u) same h = same ∙ h

  -- A read-modify-write that has taken the lock in the state `v` is all or nothing: where it answers,
  -- the file held a document in `v` and holds the edit of it, stamped; where it throws, the file
  -- holds what it held. The lock file is gone then, unless its removal threw.
  pub mutate-atomic :
      (rounds : ℕ) (who now : String) (f : ConfigDoc → ConfigDoc) (w v : W)
      → take_lock file rounds w ≡ (value tt, v)
      → Ends
          (λ _. IsEdited file text who now f v)
          (λ w'. text w' ≡ text v)
          (mutate file rounds who now f w)
        × ((held (mutate file rounds who now f w).1 ≡ false)
            ⊎ ((e : String) × ((file.rm_lock (rewrite file who now f v).1).0 ≡ thrown e)))
  unfolding mutate with_file_lock
  mutate-atomic rounds who now f w v e =
      let u = (rewrite file who now f v).1 in
      let (same, dropped) = removed-text u (file.rm_lock u) (c.removes u) in
      rw e (
        finally-Ends who now f v (rewrite file who now f v) same (rewrite-Ends who now f v),
        dropped,
      )
