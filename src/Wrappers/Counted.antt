-- ===== src/Wrappers/Counted.antt =====
-- Instances that hold no other ones meet the interface.
use glibmm.Base.{
  none-some, some_eq, ℕ, suc, ◌-◌, ◌<◌, ◌≡◌, refl, sym, ap, subst, ◌∙◌, ◌⊎◌, inl, inr, false,
  Bool-cases, Option, none, some, List, [], ◌∷◌, ◌==◌, if◌then◌else◌, arith, ==_eq, ==_refl,
}
use glibmm.Wrappers.GObject.{Objects, In, IsDistinct}

abbrev pub Counts : Type 0
Counts = (ℕ → ℕ) × (ℕ → Option ℕ)

abbrev pub set_at {ℓ} : {A : Type ℓ} → (ℕ → A) → ℕ → A → ℕ → A
set_at f o v p = if o == p then v else f p

abbrev pub get : Counts → ℕ → Option ℕ
get (refs, qdata) o = if refs o == 0 then none else qdata o

abbrev pub to_list : Option ℕ → List ℕ
to_list none = []
to_list (some w) = w ∷ []

abbrev pub drop_ref : Counts → ℕ → Counts × List ℕ
drop_ref (refs, qdata) o =
    ((set_at refs o (refs o - 1), qdata), if refs o == 1 then to_list (qdata o) else [])

to_list-In : (r : Option ℕ) (w : ℕ) → r ≡ some w → In w (to_list r)
to_list-In none w e = absurd (none-some e)
to_list-In (some v) w e = inl (sym (some_eq e))

In-to_list : (r : Option ℕ) (w : ℕ) → In w (to_list r) → r ≡ some w
In-to_list none w x = absurd x
In-to_list (some v) w (inl q) = ap some (sym q)
In-to_list (some v) w (inr x) = absurd x

to_list-IsDistinct : (r : Option ℕ) → IsDistinct (to_list r)
to_list-IsDistinct none = tt
to_list-IsDistinct (some w) = (λ x. x, tt)

drop-one :
    (refs : ℕ → ℕ) (qdata : ℕ → Option ℕ) (o : ℕ)
    → refs o ≡ 1
    → (drop_ref (refs, qdata) o).1 ≡ to_list (qdata o)
drop-one refs qdata o e = rw e

drop-more :
    (refs : ℕ → ℕ) (qdata : ℕ → Option ℕ) (o : ℕ)
    → (refs o == 1) ≡ false
    → (drop_ref (refs, qdata) o).1 ≡ []
drop-more refs qdata o e = rw e

get-live :
    (refs : ℕ → ℕ) (qdata : ℕ → Option ℕ) (o : ℕ) → 0 < refs o → get (refs, qdata) o ≡ qdata o
get-live refs qdata o l = ground arith

get-gone : (refs : ℕ → ℕ) (qdata : ℕ → Option ℕ) (o : ℕ) → refs o ≡ 0 → get (refs, qdata) o ≡ none
get-gone refs qdata o l = rw l

-- What an unref() finalizes is the instance itself, with its last reference.
finalized :
    (refs : ℕ → ℕ) (o p : ℕ)
    → 0 < refs o
    → set_at refs o (refs o - 1) p ≡ 0
    → ((o ≡ p) × (refs o ≡ 1)) ⊎ (refs p ≡ 0)
finalized refs o p live gone = elim (Bool-cases (o == p)) [
  | inl e ↦ inl (==_eq o p e, ground arith)
  | inr e ↦ inr (sym (set-other refs o p e) ∙ gone)
]
  where
    set-other : (refs : ℕ → ℕ) (o p : ℕ) → (o == p) ≡ false → set_at refs o (refs o - 1) p ≡ refs p
    set-other refs o p e = rw e

pub notified :
    (refs : ℕ → ℕ) (qdata : ℕ → Option ℕ) (o p w : ℕ)
    → 0 < refs o
    → get (refs, qdata) p ≡ some w
    → set_at refs o (refs o - 1) p ≡ 0
    → In w (drop_ref (refs, qdata) o).1
notified refs qdata o p w live k gone = go (finalized refs o p live gone)
  where
    go : ((o ≡ p) × (refs o ≡ 1)) ⊎ (refs p ≡ 0) → In w (drop_ref (refs, qdata) o).1
    go (inl (q, one)) =
        subst (In w) (sym (drop-one refs qdata o one))
          (to_list-In (qdata o) w (sym (get-live refs qdata o live) ∙ ap (get (refs, qdata)) q ∙ k))
    go (inr z) = absurd (none-some (sym (get-gone refs qdata p z) ∙ k))

pub unnotified :
    (refs : ℕ → ℕ) (qdata : ℕ → Option ℕ) (o w : ℕ)
    → 0 < refs o
    → In w (drop_ref (refs, qdata) o).1
    → (p : ℕ) × (get (refs, qdata) p ≡ some w) × (set_at refs o (refs o - 1) p ≡ 0)
unnotified refs qdata o w live x = elim (Bool-cases (refs o == 1)) [
  | inl e ↦
      let one = ==_eq (refs o) 1 e in
      let q = In-to_list (qdata o) w (subst (In w) (drop-one refs qdata o one) x) in
      (o, get-live refs qdata o live ∙ q, rw (==_refl o, one))
  | inr e ↦ absurd (subst (In w) (drop-more refs qdata o e) x)
]

pub distinct :
    (refs : ℕ → ℕ) (qdata : ℕ → Option ℕ) (o : ℕ) → IsDistinct (drop_ref (refs, qdata) o).1
distinct refs qdata o = elim (Bool-cases (refs o == 1)) [
  | inl e ↦ rw e (to_list-IsDistinct (qdata o))
  | inr e ↦ rw e tt
]

pub steal_law :
    (refs : ℕ → ℕ) (qdata : ℕ → Option ℕ) (o p : ℕ)
    → get (refs, set_at qdata o none) p ≡ (if o == p then none else get (refs, qdata) p)
steal_law refs qdata o p = ground arith

pub set_law :
    (refs : ℕ → ℕ) (qdata : ℕ → Option ℕ) (o w p : ℕ)
    → 0 < refs o
    → get (refs, set_at qdata o (some w)) p ≡ (if o == p then some w else get (refs, qdata) p)
set_law refs qdata o w p live = ground arith

pub ref_get_law :
    (refs : ℕ → ℕ) (qdata : ℕ → Option ℕ) (o p : ℕ)
    → 0 < refs o
    → get (set_at refs o (suc (refs o)), qdata) p ≡ get (refs, qdata) p
ref_get_law refs qdata o p live = ground arith

pub ref_law :
    (refs : ℕ → ℕ) (o p : ℕ)
    → set_at refs o (suc (refs o)) p ≡ (if o == p then suc (refs p) else refs p)
ref_law refs o p = ground arith

pub many_law :
    (refs : ℕ → ℕ) (o p : ℕ)
    → set_at refs o (refs o - 1) p ≡ (if o == p then refs p - 1 else refs p)
many_law refs o p = ground arith

pub last_law : (refs : ℕ → ℕ) (o : ℕ) → refs o ≡ 1 → set_at refs o (refs o - 1) o ≡ 0
last_law refs o one = ground arith

pub kept_law :
    (refs : ℕ → ℕ) (qdata : ℕ → Option ℕ) (o p : ℕ)
    → 0 < set_at refs o (refs o - 1) p
    → get (set_at refs o (refs o - 1), qdata) p ≡ get (refs, qdata) p
kept_law refs qdata o p alive = ground arith

pub gone_law :
    (refs : ℕ → ℕ) (qdata : ℕ → Option ℕ) (o p : ℕ)
    → set_at refs o (refs o - 1) p ≡ 0
    → get (set_at refs o (refs o - 1), qdata) p ≡ none
gone_law refs qdata o p gone = ground arith

abbrev pub counted : Objects
counted = record {
  State = Counts;
  get_qdata = get;
  steal_qdata = λ (refs, qdata) o. (refs, set_at qdata o none);
  set_qdata_full = λ (refs, qdata) o w. (refs, set_at qdata o (some w));
  ref = λ (refs, qdata) o. (set_at refs o (suc (refs o)), qdata);
  unref = drop_ref;
  refs = λ (refs, qdata) o. refs o;
  steal-get = λ (refs, qdata) o p. steal_law refs qdata o p;
  steal-refs = λ (refs, qdata) o p. refl;
  set-get = λ (refs, qdata) o w p free live. set_law refs qdata o w p live;
  set-refs = λ (refs, qdata) o w p. refl;
  ref-get = λ (refs, qdata) o p live. ref_get_law refs qdata o p live;
  ref-refs = λ (refs, qdata) o p live. ref_law refs o p;
  unref-many = λ (refs, qdata) o p many. many_law refs o p;
  unref-last = λ (refs, qdata) o one. last_law refs o one;
  unref-kept = λ (refs, qdata) o p live alive. kept_law refs qdata o p alive;
  unref-gone = λ (refs, qdata) o p live gone. gone_law refs qdata o p gone;
  unref-notified = λ (refs, qdata) o p w live k gone. notified refs qdata o p w live k gone;
  notified-unref = λ (refs, qdata) o w live x. unnotified refs qdata o w live x;
  unref-IsDistinct = λ (refs, qdata) o live. distinct refs qdata o;
}
