-- ===== src/Bridge/Pool/Lasting.antt =====
-- A slot of the pool keeps the conversation it is bound to.
use mathlib.Core.List.{[], ◌∷◌}
use model_lib.Prelude.{
  ℕ, String, Bool, false, Option, none, some, List, ◌≡◌, refl, inl, inr, ◌==◌, string_eq, nat_eq,
  eq_iff, arith, if◌then◌else◌, find_row, Bool-cases,
}
use model_lib.Text.{is_empty}
use model_lib.Tx.{◌>>=◌}
use model_lib.Tx.Keeps.{keeps_raise_if, keeps_bind, keeps_found, keeps_unless}
use model_lib.Bridge.Rules.{keeps_require_text}
use model_lib.Bridge.Pool.{
  Identity, Slot, PoolAction, pool_identity, lease_matches, is_free, update_first, take_slot,
  acquire_free, acquire_identity, acquire_slot, validate_conversation_url, is_other_url, bind_slot,
  free_slot, bind_conversation, release_slot,
}

-- the conversation that a slot is bound to
unfoldable pub url_of : String → List Slot → Option String
url_of id slots = elim (find_row (λ s. s.slot_id == id) slots) [
  | none ↦ none
  | some s ↦ s.conversation_url
]

url_of-cons :
    (id : String) (s : Slot) (slots : List Slot)
    → url_of id (s ∷ slots) ≡ (if s.slot_id == id then s.conversation_url else url_of id slots)
unfolding url_of find_row
url_of-cons id s slots = ground arith

url_of-update_first :
    (p : Slot → Bool) (f : Slot → Slot) (id u : String) (slots : List Slot)
    → ((s : Slot) → (f s).slot_id ≡ s.slot_id)
    → ((s : Slot)
        → find_row p slots ≡ some s
        → s.conversation_url ≡ some u
        → (f s).conversation_url ≡ some u)
    → url_of id slots ≡ some u
    → url_of id (update_first p f slots) ≡ some u
unfolding update_first find_row
url_of-update_first p f id u [] keyed keeps h = h
url_of-update_first p f id u (s ∷ slots) keyed keeps h = elim (Bool-cases (p s)) [
  | inl e ↦ ground (arith, e, keyed s, keeps s, url_of-cons id s slots, url_of-cons id (f s) slots)
  | inr e ↦ ground (
    arith,
    e,
    url_of-cons id s slots,
    url_of-cons id s (update_first p f slots),
    url_of-update_first p f id u slots keyed (λ r found. keeps r (rw e found)),
  )
]

-- reading the arguments writes nothing
module _ {A : Type 0} (P : List Slot → Type 0) where
  pub keeps_pool_identity :
      (project actor session turn : String) (k : Identity → PoolAction A) (slots : List Slot)
      → P slots
      → ((i : Identity) (t : List Slot) → P t → P (k i t).1)
      → P ((pool_identity project actor session turn >>= k) slots).1
  unfolding pool_identity
  keeps_pool_identity project actor session turn k slots h next =
      keeps_bind P (pool_identity project actor session turn) k slots
        (keeps_require_text P _ _ _ slots h λ _. keeps_require_text P _ _ _ slots h λ _.
          keeps_require_text P _ _ _ slots h
            λ _. keeps_require_text P _ _ _ slots h λ _. keeps_raise_if P _ _ _ slots h h)
        next

  pub keeps_validate_conversation_url :
      (url : Option String) (k : String → PoolAction A) (slots : List Slot)
      → P slots
      → ((canonical : String) (t : List Slot) → P t → P (k canonical t).1)
      → P ((validate_conversation_url url >>= k) slots).1
  unfolding validate_conversation_url
  keeps_validate_conversation_url url k slots h next =
      keeps_bind P (validate_conversation_url url) k slots (validated url) next
    where
      validated : (url : Option String) → P (validate_conversation_url url slots).1
      validated none = h
      validated (some url) = keeps_raise_if P _ _ _ slots h h

module _ (id u : String) (bound : is_empty u ≡ false) where
  abbrev IsBound : List Slot → Type 0
  IsBound slots = url_of id slots ≡ some u

  take_slot-IsBound :
      (i : Identity) (now : ℕ) (o : Option Slot) (slots : List Slot)
      → IsBound slots
      → IsBound (acquire_free i now o slots).1
  unfolding acquire_free
  take_slot-IsBound i now none slots h = h
  take_slot-IsBound i now (some s) slots h =
      url_of-update_first (λ x. is_free x.lease) (take_slot i now) id u slots (λ s. refl)
        (λ s found same. same) h

  acquire_identity-IsBound :
      (i : Identity) (now : ℕ) (o : Option Slot) (slots : List Slot)
      → IsBound slots
      → IsBound (acquire_identity i now o slots).1
  unfolding acquire_identity
  acquire_identity-IsBound i now (some s) slots h = h
  acquire_identity-IsBound i now none slots h =
      keeps_raise_if IsBound _ _ _ slots h (take_slot-IsBound i now _ slots h)

  bind_slot-IsBound :
      (i : Identity) (url : String) (now : ℕ) (slots : List Slot) (s : Slot)
      → find_row (λ x. lease_matches i x.lease) slots ≡ some s
      → is_other_url url s.conversation_url ≡ false
      → IsBound slots
      → IsBound (update_first (λ x. lease_matches i x.lease) (bind_slot url now) slots)
  bind_slot-IsBound i url now slots s found same h =
      url_of-update_first (λ x. lease_matches i x.lease) (bind_slot url now) id u slots (λ r. refl)
        (λ r here had. ground (arith, found, here, same, had, bound, eq_iff u url)) h

  free_slot-IsBound :
      (i : Identity) (now : ℕ) (slots : List Slot)
      → IsBound slots
      → IsBound (update_first (λ x. lease_matches i x.lease) (free_slot now) slots)
  free_slot-IsBound i now slots h =
      url_of-update_first (λ x. lease_matches i x.lease) (free_slot now) id u slots (λ r. refl)
        (λ r here had. had) h

-- A slot that is bound to a conversation stays bound to it, whichever slot is acquired, bound or released
-- by whomever, and whether that succeeds or raises.
pub conversation_is_lasting :
    (id u project actor session turn : String) (url : Option String) (now : ℕ) (slots : List Slot)
    → is_empty u ≡ false
    → url_of id slots ≡ some u
    → (url_of id (acquire_slot project actor session turn now slots).1 ≡ some u)
      × (url_of id (bind_conversation project actor session turn url now slots).1 ≡ some u)
      × (url_of id (release_slot project actor session turn now slots).1 ≡ some u)
unfolding acquire_slot bind_conversation release_slot
conversation_is_lasting id u project actor session turn url now slots bound h =
    let P = IsBound id u bound in
    (
      keeps_pool_identity P project actor session turn _ slots h
          λ i t k. acquire_identity-IsBound id u bound i now _ t k,
      keeps_pool_identity P project actor session turn _ slots h λ i t k.
          keeps_validate_conversation_url P url _ t k λ canonical v m. keeps_raise_if P _ _ _ v m (
            keeps_found P _ _ _ v m λ s found.
              keeps_unless P _ _ _ v m
                λ same. bind_slot-IsBound id u bound i canonical now v s found same m),
      keeps_pool_identity P project actor session turn _ slots h
          λ i t k. keeps_found P _ _ _ t k λ s found. free_slot-IsBound id u bound i now t k,
    )
