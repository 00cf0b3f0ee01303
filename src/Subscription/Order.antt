-- ===== src/Subscription/Order.antt =====
-- internal/subscription/service.go: the totals do not depend on the order of the entries.
use mathlib.Core.List.{Permᴰ}
use olcrtc_panel_lite.Common.{
  ℕ, ◌≡◌, refl, sym, ap, ◌∙◌, Bool, true, false, ◌&&◌, Option, none, some, List, if◌then◌else◌,
  add64, slt, arith,
}
use olcrtc_panel_lite.Model.{Instance, SubscriptionEntry, Time}
use olcrtc_panel_lite.Subscription.Lines.{left_of}
use olcrtc_panel_lite.Subscription.Totals.{
  Resolved, Aggregate, earliest, add_instance, add_optional, keep_limited, add_manual, loaded,
  add_loaded, add_source, add_entry, aggregate_from, aggregate_entries,
}

-- what one entry adds, `none` where it adds nothing
record Share : Type 0 where
  used : Option ℕ
  upload : Option ℕ
  download : Option ℕ
  available : Option ℕ
  limited : Bool
  first_expiry : Option Time
  second_expiry : Option Time

merge : Aggregate → Share → Aggregate
merge r s = record {
  used = add_optional r.used s.used;
  upload = add_optional r.upload s.upload;
  download = add_optional r.download s.download;
  available = add_optional r.available s.available;
  all_limited = r.all_limited && s.limited;
  expires = earliest (earliest r.expires s.first_expiry) s.second_expiry;
}

add_optional_swap :
    (n : ℕ) (a b : Option ℕ) → add_optional (add_optional n a) b ≡ add_optional (add_optional n b) a
unfolding add_optional
add_optional_swap n none none = refl
add_optional_swap n none (some b) = refl
add_optional_swap n (some a) none = refl
add_optional_swap n (some a) (some b) = omega arith

earliest_swap : (x a b : Option Time) → earliest (earliest x a) b ≡ earliest (earliest x b) a
unfolding earliest
earliest_swap none none none = refl
earliest_swap none none (some b) = refl
earliest_swap none (some a) none = refl
earliest_swap none (some a) (some b) = ground arith
earliest_swap (some x) none none = refl
earliest_swap (some x) none (some b) = ground arith
earliest_swap (some x) (some a) none = ground arith
earliest_swap (some x) (some a) (some b) = ground arith

earliest_swap_two :
    (x a b c d : Option Time)
    → earliest (earliest (earliest (earliest x a) b) c) d
      ≡ earliest (earliest (earliest (earliest x c) d) a) b
earliest_swap_two x a b c d =
    ap (λ t. earliest t d) (earliest_swap (earliest x a) b c)
    ∙ (ap (λ t. earliest (earliest t b) d) (earliest_swap x a c)
        ∙ (earliest_swap (earliest (earliest x c) a) b d
            ∙ ap (λ t. earliest t b) (earliest_swap (earliest x c) a d)))

and_swap : (x a b : Bool) → (x && a && b) ≡ (x && b && a)
and_swap x a b = ground arith

merge_swap : (r : Aggregate) (s t : Share) → merge (merge r s) t ≡ merge (merge r t) s
unfolding merge
merge_swap r s t = λ i. record {
  used = add_optional_swap r.used s.used t.used i;
  upload = add_optional_swap r.upload s.upload t.upload i;
  download = add_optional_swap r.download s.download t.download i;
  available = add_optional_swap r.available s.available t.available i;
  all_limited = and_swap r.all_limited s.limited t.limited i;
  expires =
      earliest_swap_two r.expires s.first_expiry s.second_expiry t.first_expiry t.second_expiry i;
}

instance_share : SubscriptionEntry → Instance → Share
instance_share entry item = record {
  used = some item.total_bytes;
  upload = some item.upload_bytes;
  download = some item.download_bytes;
  available = if slt 0 item.quota_bytes then some (left_of item) else none;
  limited = slt 0 item.quota_bytes;
  first_expiry = item.expires_at;
  second_expiry = entry.expires_at;
}

manual_share : SubscriptionEntry → Share
manual_share entry = record {
  used = entry.manual_used;
  upload = entry.manual_used;
  download = none;
  available = entry.manual_available;
  limited = keep_limited true entry.manual_available;
  first_expiry = none;
  second_expiry = entry.expires_at;
}

no_share : Share
no_share = record {
  used = none;
  upload = none;
  download = none;
  available = none;
  limited = true;
  first_expiry = none;
  second_expiry = none;
}

loaded_share : SubscriptionEntry → Option Instance → Share
loaded_share entry none = no_share
loaded_share entry (some item) = instance_share entry item

source_share : (ℕ → Option Instance) → Resolved → Option ℕ → Share
source_share get e none = manual_share e.entry
source_share get e (some id) = loaded_share e.entry (loaded get e.source id)

share : (ℕ → Option Instance) → Resolved → Share
share get e = source_share get e e.entry.source_instance_id

limited_if : (b : Bool) (a : Bool) → (if b then a else false) ≡ (a && b)
limited_if true a = ground arith
limited_if false a = ground arith

available_if :
    (b : Bool) (n m : ℕ)
    → (if b then add64 n m else n) ≡ add_optional n (if b then some m else none)
unfolding add_optional
available_if true n m = refl
available_if false n m = refl

keep_limited_and : (b : Bool) (o : Option ℕ) → keep_limited b o ≡ (b && keep_limited true o)
unfolding keep_limited
keep_limited_and b none = ground arith
keep_limited_and b (some n) = ground arith

add_instance-merge :
    (r : Aggregate) (entry : SubscriptionEntry) (item : Instance)
    → add_instance r entry item ≡ merge r (instance_share entry item)
unfolding add_instance merge instance_share add_optional
add_instance-merge r entry item = λ i. record {
  used = add64 r.used item.total_bytes;
  upload = add64 r.upload item.upload_bytes;
  download = add64 r.download item.download_bytes;
  available = available_if (slt 0 item.quota_bytes) r.available (left_of item) i;
  all_limited = limited_if (slt 0 item.quota_bytes) r.all_limited i;
  expires = earliest (earliest r.expires item.expires_at) entry.expires_at;
}

earliest-none : (x : Option Time) → earliest x none ≡ x
unfolding earliest
earliest-none none = refl
earliest-none (some x) = refl

add_manual-merge :
    (r : Aggregate) (entry : SubscriptionEntry) → add_manual r entry ≡ merge r (manual_share entry)
unfolding add_manual merge manual_share add_optional
add_manual-merge r entry = λ i. record {
  used = add_optional r.used entry.manual_used;
  upload = add_optional r.upload entry.manual_used;
  download = r.download;
  available = add_optional r.available entry.manual_available;
  all_limited = keep_limited_and r.all_limited entry.manual_available i;
  expires = earliest (sym (earliest-none r.expires) i) entry.expires_at;
}

and_true : (b : Bool) → b ≡ (b && true)
and_true b = ground arith

no_share-merge : (r : Aggregate) → r ≡ merge r no_share
unfolding merge no_share add_optional
no_share-merge r = λ i. record {
  used = r.used;
  upload = r.upload;
  download = r.download;
  available = r.available;
  all_limited = and_true r.all_limited i;
  expires = (sym (earliest-none r.expires) ∙ sym (earliest-none (earliest r.expires none))) i;
}

add_loaded-merge :
    (r : Aggregate) (entry : SubscriptionEntry) (o : Option Instance)
    → add_loaded r entry o ≡ merge r (loaded_share entry o)
unfolding add_loaded loaded_share
add_loaded-merge r entry none = no_share-merge r
add_loaded-merge r entry (some item) = add_instance-merge r entry item

add_source-merge :
    (get : ℕ → Option Instance) (r : Aggregate) (e : Resolved) (o : Option ℕ)
    → add_source get r e o ≡ merge r (source_share get e o)
unfolding add_source source_share
add_source-merge get r e none = add_manual-merge r e.entry
add_source-merge get r e (some id) = add_loaded-merge r e.entry (loaded get e.source id)

add_entry-merge :
    (get : ℕ → Option Instance) (r : Aggregate) (e : Resolved)
    → add_entry get r e ≡ merge r (share get e)
unfolding add_entry share
add_entry-merge get r e = add_source-merge get r e e.entry.source_instance_id

add_entry_swap :
    (get : ℕ → Option Instance) (r : Aggregate) (d e : Resolved)
    → add_entry get (add_entry get r d) e ≡ add_entry get (add_entry get r e) d
add_entry_swap get r d e = rw (add_entry-merge get r d) (
    rw (add_entry-merge get (merge r (share get d)) e) (
      rw (add_entry-merge get r e) (
        rw (add_entry-merge get (merge r (share get e)) d)
          (merge_swap r (share get d) (share get e)))))

aggregate_permᴰ :
    (get : ℕ → Option Instance) {xs ys : List Resolved}
    → Permᴰ xs ys
    → (r : Aggregate) → aggregate_from get r xs ≡ aggregate_from get r ys
unfolding aggregate_from
aggregate_permᴰ get Permᴰ.nil r = refl
aggregate_permᴰ get (Permᴰ.cons {a = a} {l₂ = ys} e p) r =
    aggregate_permᴰ get p (add_entry get r a)
    ∙ ap (λ x. aggregate_from get (add_entry get r x) ys) e
aggregate_permᴰ get (Permᴰ.swap {a = a} {b = b} {a' = c} {b' = d} {l = l} e f) r =
    ap (λ s. aggregate_from get s l)
      (add_entry_swap get r a b
        ∙ (ap (λ x. add_entry get (add_entry get r x) a) f
            ∙ ap (λ x. add_entry get (add_entry get r c) x) e))
aggregate_permᴰ get (Permᴰ.trans p q) r = aggregate_permᴰ get p r ∙ aggregate_permᴰ get q r

-- The totals of a subscription, its expiry and whether all of it is limited do not depend on the
-- order of its entries, whatever wraps around.
pub aggregate-order :
    (get : ℕ → Option Instance) {xs ys : List Resolved}
    → Permᴰ xs ys
    → aggregate_entries get xs ≡ aggregate_entries get ys
unfolding aggregate_entries
aggregate-order get p = aggregate_permᴰ get p _
