-- ===== src/Reconcile/Workloads/Compare.antt =====
-- Reading a value of the cluster, comparing it with the wanted one, and writing and restarting: what
-- converging the prompt and the scenarios has in common.
use artesca_vss_console.Common.{
  String, Bool, true, false, Option, none, some, ◌≡◌, refl, ◌∙◌, Effect, value, ◌>>◌, ◌>>=◌,
  OnValue, OnValue-bind, OnValue-map, try_catch, try_catch_rule, caught, ◌>>=◌, is_text, eq_iff,
  Bool-cases, inl, inr, ap, eq_iff,
}

is_text-some : (o : Option String) (s : String) → is_text o s ≡ true → o ≡ some s
is_text-some none s e = cc
is_text-some (some t) s e = ap some ((eq_iff t s).0 e)

pub is_text-same : (s : String) → is_text (some s) s ≡ true
is_text-same s = (eq_iff s s).1 refl

-- What the cluster documents of one key: a read gives its value, a write sets it, and a restart
-- keeps it.
pub record Stores {W : Type 0} (at : W → Option String) (read : Effect W (Option String))
    (write : String → Effect W Unit) (restart : Effect W Unit) : Type 0 where
  pub reads : (w : W) → read w ≡ (value (at w), w)
  pub writes : (v : String) (w : W) → OnValue (λ _ w'. at w' ≡ some v) (write v w)
  pub keeps : (w : W) → OnValue (λ _ w'. at w' ≡ at w) (restart w)

module _ {W : Type 0} (at : W → Option String) (read : Effect W (Option String))
    (write : String → Effect W Unit) (restart : Effect W Unit)
    (c : Stores at read write restart) where
  pub write-sets : (v : String) (w : W) → OnValue (λ _ w'. at w' ≡ some v) ((write v >> restart) w)
  write-sets v w =
      OnValue-bind (λ _ w'. at w' ≡ some v) _ (write v) _ w (c.writes v w)
        (λ _ w1 e. OnValue-map (λ _ w'. at w' ≡ at w1) _ _ (c.keeps w1) (λ _ w' k. k ∙ e))

  -- What the comparison of the value read with the wanted one goes on to, with what is known then.
  pub compare_rule :
      {A : Type 0} (Q : A → W → Type 0) (f : Bool → Effect W A) (handle : String → A)
      (want : String) (w : W)
      → (at w ≡ some want → OnValue Q (f true w))
      → OnValue Q (f false w)
      → ((e : String) (w' : W) → Q (handle e) w')
      → OnValue Q (try_catch (read >>= λ o. f (is_text o want)) handle w)
  compare_rule Q f handle want w same other failed =
      try_catch_rule Q (read >>= λ o. f (is_text o want)) handle w
        (rw (c.reads w) (elim (Bool-cases (is_text (at w) want)) [
          | inl e ↦ rw e (same (is_text-some (at w) want e))
          | inr e ↦ rw e other
        ]))
        failed

  -- The wanted value is read: what is done is what follows an equal comparison.
  pub compare-same :
      {A : Type 0} (f : Bool → Effect W A) (handle : String → A) (want : String) (w : W)
      → at w ≡ some want
      → try_catch (read >>= λ o. f (is_text o want)) handle w ≡ caught handle (f true w)
  compare-same f handle want w e = rw (c.reads w, e, is_text-same want) refl
