-- ===== src/History/Budgets.antt =====
-- crates/asli-history/src/lib.rs: the caps of a history, and what a new entry costs the others.
use asli.Prelude.{
  ℕ, zero, suc, ◌-◌, ◌≤◌, ◌<◌, ◌≡◌, refl, sym, ap, leb, Bool, true, false, List, [], ◌∷◌, some,
  length, take, All, get_elem?, arith, inl, inr, Bool-cases, lt→leb,
}
use asli.Prelude.Results.{done}
use asli.Crypto.Primitives.{Primitives}
use asli.History.{
  Content, text, image_png, Entry, Limits, len, is_image, same_kind, total, remove_at, evict,
}
use asli.History.Eviction.{evict-within, within, within_all, others, take_all}
use asli.History.Kept.{All-within}
use asli.History.Store.{Store, Disk, System, stored, changed, saving, append_from}
use asli.History.Store.Cases.{append_from-elim, changed-stored, saving-value, with_new, with_moved}

pub record InBudget (l : Limits) (es : List Entry) : Type 0 where
  pub count : length es ≤ l.max_entries
  pub texts : total false es ≤ l.max_text_bytes
  pub images : total true es ≤ l.max_image_bytes

others_twice :
    (images : Bool) (es : List Entry) → others images (others images es) ≡ others images es
unfolding others
others_twice images [] = refl
others_twice images (e ∷ es) = ground (arith, others_twice images es)

total-others :
    (kind images : Bool) (es : List Entry) → total kind (others images es) ≤ total kind es
unfolding total others
total-others kind images [] = omega arith
total-others kind images (e ∷ es) = ground (arith, total-others kind images es)

total-others_self : (images : Bool) (es : List Entry) → total images (others images es) ≡ 0
unfolding total others
total-others_self images [] = refl
total-others_self images (e ∷ es) = ground (arith, total-others_self images es)

length-others : (images : Bool) (es : List Entry) → length (others images es) ≤ length es
unfolding others
length-others images [] = omega arith
length-others images (e ∷ es) = ground (arith, length-others images es)

total-within_self :
    (images : Bool) (budget : ℕ) (es : List Entry) → total images (within images budget es) ≤ budget
unfolding total within
total-within_self images budget [] = omega arith
total-within_self images budget (e ∷ es) = ground (
  arith,
  total-within_self images budget es,
  total-within_self images (budget - len e.content) es,
  total-others_self images es,
)

total-within :
    (kind images : Bool) (budget : ℕ) (es : List Entry)
    → total kind (within images budget es) ≤ total kind es
unfolding total within
total-within kind images budget [] = omega arith
total-within kind images budget (e ∷ es) = ground (
  arith,
  total-within kind images budget es,
  total-within kind images (budget - len e.content) es,
  total-others kind images es,
)

length-within :
    (images : Bool) (budget : ℕ) (es : List Entry) → length (within images budget es) ≤ length es
unfolding within
length-within images budget [] = omega arith
length-within images budget (e ∷ es) = ground (
  arith,
  length-within images budget es,
  length-within images (budget - len e.content) es,
  length-others images es,
)

length-take-le : (n : ℕ) (es : List Entry) → length (take n es) ≤ n
length-take-le zero es = omega arith
length-take-le (suc n) [] = omega arith
length-take-le (suc n) (e ∷ es) = omega (arith, length-take-le n es)

pub evict-InBudget : (l : Limits) (es : List Entry) → InBudget l (evict l es)
evict-InBudget l es =
    let newest = take l.max_entries es in
    let kept = within false l.max_text_bytes newest in
    rw (evict-within l es) (record {
      count = omega (
        arith,
        length-within true l.max_image_bytes kept,
        length-within false l.max_text_bytes newest,
        length-take-le l.max_entries es,
      );
      texts = omega (
        arith,
        total-within false true l.max_image_bytes kept,
        total-within_self false l.max_text_bytes newest,
      );
      images = total-within_self true l.max_image_bytes kept;
    })

-- Moving an entry to the top changes no total.
total-remove_at :
    (kind : Bool) (es : List Entry) (i : ℕ) (e : Entry)
    → get_elem? es i ≡ some e
    → total kind (e ∷ remove_at es i) ≡ total kind es
unfolding total remove_at
total-remove_at kind [] i e h = cc
total-remove_at kind (f ∷ es) zero e h =
    let same : f ≡ e = ground arith in ap (λ x. total kind (x ∷ es)) (sym same)
total-remove_at kind (f ∷ es) (suc i) e h = ground (arith, total-remove_at kind es i e h)

total-moved :
    (kind : Bool) (e : Entry) (ts_ms : ℕ) (device_id : List ℕ) (es : List Entry)
    → total kind (record e { ts_ms = ts_ms; device_id = device_id } ∷ es) ≡ total kind (e ∷ es)
unfolding total same_kind
total-moved kind e ts_ms device_id es = refl

length-remove_at :
    (es : List Entry) (i : ℕ) (e : Entry)
    → get_elem? es i ≡ some e
    → suc (length (remove_at es i)) ≡ length es
unfolding remove_at
length-remove_at [] i e h = cc
length-remove_at (f ∷ es) zero e h = refl
length-remove_at (f ∷ es) (suc i) e h = ap suc (length-remove_at es i e h)

with_moved-InBudget :
    (s : Store) (i : ℕ) (e : Entry) (ts_ms : ℕ) (device_id : List ℕ)
    → InBudget s.limits s.entries
    → get_elem? s.entries i ≡ some e
    → InBudget s.limits (with_moved s i e ts_ms device_id).entries
with_moved-InBudget s i e ts_ms device_id v here =
    let rest = remove_at s.entries i in
    record {
      count = omega (arith, v.count, length-remove_at s.entries i e here);
      texts =
          rw (total-moved false e ts_ms device_id rest, total-remove_at false s.entries i e here)
            v.texts;
      images =
          rw (total-moved true e ts_ms device_id rest, total-remove_at true s.entries i e here)
            v.images;
    }

-- The entries of the other kind stay.
others-within :
    (images : Bool) (budget : ℕ) (es : List Entry)
    → others images (within images budget es) ≡ others images es
unfolding others within
others-within images budget [] = refl
others-within images budget (e ∷ es) = ground (
  arith,
  others-within images budget es,
  others-within images (budget - len e.content) es,
  others_twice images es,
)

with_new-others :
    (s : Store) (id png : List ℕ) (ts_ms : ℕ) (device_id : List ℕ)
    → InBudget s.limits s.entries
    → length s.entries < s.limits.max_entries
    → others true (with_new s id (image_png png) ts_ms device_id).entries ≡ others true s.entries
unfolding others total same_kind is_image
with_new-others s id png ts_ms device_id v free =
    let new : Entry = record {
      id = id;
      ts_ms = ts_ms;
      content = image_png png;
      device_id = device_id;
    } in
    rw
      (
        evict-within s.limits (new ∷ s.entries),
        take_all s.limits.max_entries (new ∷ s.entries) (omega (arith, free)),
        within_all false s.limits.max_text_bytes (new ∷ s.entries) v.texts,
        others-within true s.limits.max_image_bytes (new ∷ s.entries),
      )
      refl

others-is_image : (es : List Entry) → All (λ e. is_image e.content ≡ true) (others false es)
unfolding others same_kind
others-is_image [] = tt
others-is_image (e ∷ es) = elim (Bool-cases (is_image e.content)) [
  | inl image ↦ rw image (image, others-is_image es)
  | inr plain ↦ rw plain (others-is_image es)
]

newest_text :
    (n budget : ℕ) (new : Entry) (es : List Entry)
    → is_image new.content ≡ false
    → budget < len new.content
    → All (λ e. is_image e.content ≡ true) (within false budget (take n (new ∷ es)))
unfolding within same_kind
newest_text zero budget new es plain over = tt
newest_text (suc n) budget new es plain over =
    let long : leb (len new.content) budget ≡ false = lt→leb _ _ over in
    rw (plain, long) (others-is_image (take n es))

with_new-over_budget :
    (s : Store) (id t : List ℕ) (ts_ms : ℕ) (device_id : List ℕ)
    → s.limits.max_text_bytes < len (text t)
    → All (λ e. is_image e.content ≡ true) (with_new s id (text t) ts_ms device_id).entries
unfolding is_image
with_new-over_budget s id t ts_ms device_id over =
    let new : Entry = record { id = id; ts_ms = ts_ms; content = text t; device_id = device_id } in
    rw (evict-within s.limits (new ∷ s.entries)) (
      All-within (λ e. is_image e.content ≡ true) true s.limits.max_image_bytes _
        (newest_text s.limits.max_entries s.limits.max_text_bytes new s.entries refl over))

module _ (crypto : Primitives) where
  -- A history within its caps stays within them, whatever is appended and whether it is saved.
  pub append_from-InBudget :
      (s : Store) (disk : Disk) (system : System) (content : Content) (sensitive : Bool) (ts_ms : ℕ)
      (device_id : List ℕ)
      → InBudget s.limits s.entries
      → InBudget s.limits
          (append_from crypto s disk system content sensitive ts_ms device_id).0.entries
  append_from-InBudget s disk system content sensitive ts_ms device_id v =
      append_from-elim crypto (λ r. InBudget s.limits r.0.entries) s disk system content sensitive
        ts_ms device_id (λ a plain. v) (λ failure. v)
        (λ i e here same found.
          unfold saving in with_moved-InBudget s (suc i) e ts_ms device_id v here)
        (λ id chosen missing plain small. unfold saving in evict-InBudget s.limits _)

  -- A screenshot costs no text: an image that is stored while the history is within its caps and
  -- not full leaves every text entry where it was.
  pub append_from-others :
      (s : Store) (disk : Disk) (system : System) (png : List ℕ) (sensitive : Bool) (ts_ms : ℕ)
      (device_id id : List ℕ)
      → InBudget s.limits s.entries
      → length s.entries < s.limits.max_entries
      → (append_from crypto s disk system (image_png png) sensitive ts_ms device_id).2
        ≡ done (stored id)
      → others true
          (append_from crypto s disk system (image_png png) sensitive ts_ms device_id).0.entries
        ≡ others true s.entries
  append_from-others s disk system png sensitive ts_ms device_id id v free h =
      append_from-elim crypto
        (λ r. r.2 ≡ done (stored id) → others true r.0.entries ≡ others true s.entries) s disk
        system (image_png png) sensitive ts_ms device_id (λ a plain got. refl) (λ failure got. refl)
        (λ i e here same found got. cc (saving-value crypto _ disk system _ (stored id) got))
        (λ id chosen missing plain small got.
          unfold saving in with_new-others s id png ts_ms device_id v free)
        h

  -- A text that is short enough to be stored and too long for the budget of the texts takes every
  -- text with it: once it is stored, the history holds no text at all, not even that one.
  pub append_from-over_budget :
      (s : Store) (disk : Disk) (system : System) (t : List ℕ) (sensitive : Bool) (ts_ms : ℕ)
      (device_id id : List ℕ)
      → s.limits.max_text_bytes < len (text t)
      → (append_from crypto s disk system (text t) sensitive ts_ms device_id).2 ≡ done (stored id)
      → All
          (λ e. is_image e.content ≡ true)
          (append_from crypto s disk system (text t) sensitive ts_ms device_id).0.entries
  append_from-over_budget s disk system t sensitive ts_ms device_id id over h =
      append_from-elim crypto
        (λ r. r.2 ≡ done (stored id) → All (λ e. is_image e.content ≡ true) r.0.entries) s disk
        system (text t) sensitive ts_ms device_id
        (λ a plain got. unfold changed in cc (changed-stored a id plain got)) (λ failure got. cc)
        (λ i e here same found got. cc (saving-value crypto _ disk system _ (stored id) got))
        (λ id chosen missing plain small got.
          unfold saving in with_new-over_budget s id t ts_ms device_id over)
        h
