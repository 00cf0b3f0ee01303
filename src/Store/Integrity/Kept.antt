-- ===== src/Store/Integrity/Kept.antt =====
-- internal/store: what a statement on the instances keeps of the rows that refer to them.
use olcrtc_panel_lite.Common.{
  ℕ, suc, ◌<◌, ◌≡◌, ◌≢◌, refl, sym, ◌∙◌, Bool, true, false, not, ◌&&◌, ◌||◌, Option, none, some,
  List, [], ◌∷◌, ◌==◌, ==_iff, any, All, All-mono, arith,
}
use olcrtc_panel_lite.Text.{text_eq}
use olcrtc_panel_lite.Model.{Instance, SubscriptionEntry, TrafficCounter}
use olcrtc_panel_lite.Store.Rows.{All-append_row, Unique-append_row, append_row, delete_rows}
use olcrtc_panel_lite.Store.Keys.{
  Numbered, All-of_any-false, any-append_row_old, any-append_row_new, any-delete_rows, ≢-of_text_eq,
  or_false, ==_false,
}
use olcrtc_panel_lite.Store.Instances.{has_id, clashes, clashes_elsewhere, is_linked_to}
use olcrtc_panel_lite.Store.Entries.{is_source}
use olcrtc_panel_lite.Store.Integrity.Tables.{CounterKeys}

pub Numbered-append_row :
    {A : Type 0} (key : A → ℕ) (rows : List A) (a : A) (next : ℕ)
    → key a ≡ next
    → Numbered key rows next
    → Numbered key (append_row rows a) (suc next)
Numbered-append_row key rows a next e h = (
  Unique-append_row key rows a (All-mono rows (λ b lt q. omega arith) h.1) h.0,
  All-append_row _ rows a (All-mono rows (λ b lt. omega arith) h.1) (omega arith),
)

pub not_left : (b c : Bool) → (b || c) ≡ false → b ≡ false
not_left true c h = cc
not_left false c h = refl

pub drop_or : (b c : Bool) → b ≡ false → (b || c) ≡ true → c ≡ true
drop_or true c e h = cc
drop_or false c e h = h

pub names_of_clashes :
    (item : Instance) (rows : List Instance)
    → any (clashes item) rows ≡ false
    → All (λ row. row.name ≢ item.name) rows × All (λ row. row.client_id ≢ item.client_id) rows
unfolding clashes
names_of_clashes item rows h =
    let apart = All-of_any-false (clashes item) rows h in
    (
      All-mono rows (λ row e. ≢-of_text_eq _ _ (not_left _ _ e)) apart,
      All-mono rows (λ row e. ≢-of_text_eq _ _ (or_false (text_eq row.name item.name) _ e)) apart,
    )

-- a linked instance is still there when a row was added
pub source_appended :
    (rows : List Instance) (row : Instance) (o : Option ℕ)
    → is_source rows o ≡ true
    → is_source (append_row rows row) o ≡ true
unfolding is_source
source_appended rows row none h = h
source_appended rows row (some id) h = any-append_row_old (has_id id) rows row h

pub uncounted :
    (rows : List Instance) (next id : ℕ)
    → All (λ r. r.id < next) rows
    → id ≡ next
    → any (has_id id) rows ≢ true
uncounted [] next id h e k = cc
uncounted (r ∷ rows) next id h e k =
    uncounted rows next id h.1 e
      (drop_or (r.id == id) _ (==_false r.id id (λ q. let lt = h.0 in absurd (omega arith))) k)

pub counters_appended :
    (rows : List Instance) (row : Instance) (counters : List TrafficCounter) (c : TrafficCounter)
    (next : ℕ)
    → row.id ≡ next
    → c.instance_id ≡ next
    → Numbered (λ r. r.id) rows next
    → CounterKeys rows counters
    → CounterKeys (append_row rows row) (append_row counters c)
counters_appended rows row counters c next e f n k = record {
  counted =
      Unique-append_row _ counters c
        (All-mono counters (λ d g q. uncounted rows next (d.instance_id) n.1 (q ∙ f) g) k.counts)
        k.counted;
  counts =
      All-append_row _ counters c
        (All-mono counters (λ d g. any-append_row_old (has_id d.instance_id) rows row g) k.counts)
        (any-append_row_new (has_id c.instance_id) rows row ((==_iff _ _).1 (e ∙ sym f)));
}

pub and_rest : (b c : Bool) → b ≡ false → (not b && c) ≡ false → c ≡ false
and_rest true c e h = cc
and_rest false c e h = h

pub source_updated :
    (rows later : List Instance) (o : Option ℕ)
    → ((id : ℕ) → any (has_id id) later ≡ any (has_id id) rows)
    → is_source rows o ≡ true
    → is_source later o ≡ true
unfolding is_source
source_updated rows later none same h = h
source_updated rows later (some id) same h = same id ∙ h

-- a deleted instance is not referred to any more
pub instance_left :
    (rows : List Instance) (id other : ℕ)
    → (other == id) ≡ false
    → any (has_id other) rows ≡ true
    → any (has_id other) (delete_rows (has_id id) rows) ≡ true
instance_left rows id other h k =
    any-delete_rows (has_id other) (has_id id) rows (λ row e. rw ((==_iff row.id other).0 e) h) k

pub linked_left :
    (rows : List Instance) (id : ℕ) (o : Option ℕ)
    → elim o [ none ↦ false | some i ↦ i == id ] ≡ false
    → is_source rows o ≡ true
    → is_source (delete_rows (has_id id) rows) o ≡ true
unfolding is_source
linked_left rows id none h k = k
linked_left rows id (some i) h k = instance_left rows id i h k

pub source_left :
    (rows : List Instance) (id : ℕ) (e : SubscriptionEntry)
    → is_linked_to id e ≡ false
    → is_source rows e.source_instance_id ≡ true
    → is_source (delete_rows (has_id id) rows) e.source_instance_id ≡ true
unfolding is_source is_linked_to
source_left rows id e h k = linked_left rows id e.source_instance_id h k

-- the test of another row, without its identifier
pub elsewhere_apart :
    (item : Instance) (rows : List Instance)
    → any (clashes_elsewhere item) rows ≡ false
    → All (λ row. (row.id == item.id) ≡ false → clashes item row ≡ false) rows
unfolding clashes_elsewhere
elsewhere_apart item rows h =
    All-mono rows (λ row e d. and_rest (row.id == item.id) (clashes item row) d e)
      (All-of_any-false (clashes_elsewhere item) rows h)
