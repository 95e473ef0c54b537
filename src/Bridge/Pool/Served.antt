-- ===== src/Bridge/Pool/Served.antt =====
-- No two slots of the pool serve one session.
use mathlib.Core.List.{[], ◌∷◌}
use model_lib.Prelude.{
  ℕ, ◌+◌, ◌≤◌, String, Bool, true, false, Option, none, some, List, ◌≡◌, inl, inr, string_eq,
  nat_eq, eq_iff, arith, exists_row, exists_row-iff_count, count_rows, count_rows-le, Bool-cases,
}
use model_lib.Tx.Keeps.{keeps_raise_if, keeps_found, keeps_unless}
use model_lib.Bridge.Pool.{
  Identity, SlotLease, Slot, is_session_of, leases_session, lease_matches, is_free, update_first,
  take_slot, acquire_free, acquire_identity, acquire_slot, bind_slot, free_slot, bind_conversation,
  release_slot,
}
use model_lib.Bridge.Pool.Lasting.{keeps_pool_identity, keeps_validate_conversation_url}

-- the slots that serve a session
abbrev pub serving : Identity → List Slot → ℕ
serving i slots = count_rows (λ s. leases_session i s.lease) slots

module _ (p q : Slot → Bool) (f : Slot → Slot) where
  count_rows-update_first :
      (slots : List Slot)
      → ((s : Slot) → q (f s) ≡ true → q s ≡ true)
      → count_rows q (update_first p f slots) ≤ count_rows q slots
  unfolding count_rows update_first
  count_rows-update_first [] h = omega arith
  count_rows-update_first (s ∷ slots) h = ground (arith, h s, count_rows-update_first slots h)

  count_rows-update_first_one :
      (slots : List Slot) → count_rows q (update_first p f slots) ≤ count_rows q slots + 1
  unfolding count_rows update_first
  count_rows-update_first_one [] = omega arith
  count_rows-update_first_one (s ∷ slots) = ground (arith, count_rows-update_first_one slots)

-- one slot serves each session at most
abbrev pub IsServed : List Slot → Type 0
IsServed slots = (i : Identity) → serving i slots ≤ 1

same_session :
    (i j : Identity) (o : Option SlotLease)
    → is_session_of i j ≡ true
    → leases_session j o ≡ true
    → leases_session i o ≡ true
same_session i j none same h = cc
same_session i j (some l) same h = ground (
  arith,
  same,
  h,
  eq_iff i.project_id j.project_id,
  eq_iff i.actor_id j.actor_id,
  eq_iff i.session_id j.session_id,
  eq_iff l.identity.project_id j.project_id,
  eq_iff l.identity.actor_id j.actor_id,
  eq_iff l.identity.session_id j.session_id,
  eq_iff l.identity.project_id i.project_id,
  eq_iff l.identity.actor_id i.actor_id,
  eq_iff l.identity.session_id i.session_id,
)

taken-IsServed :
    (i : Identity) (now : ℕ) (slots : List Slot)
    → exists_row (λ s. leases_session i s.lease) slots ≡ false
    → IsServed slots
    → IsServed (update_first (λ s. is_free s.lease) (take_slot i now) slots)
taken-IsServed i now slots none_of h j = elim (Bool-cases (is_session_of i j)) [
  | inl e ↦ ground (
    arith,
    none_of,
    exists_row-iff_count (λ s. leases_session i s.lease) slots,
    count_rows-le (λ s. leases_session j s.lease) (λ s. leases_session i s.lease) slots
        (λ s. same_session i j s.lease e),
    count_rows-update_first_one (λ s. is_free s.lease) (λ s. leases_session j s.lease)
        (take_slot i now) slots,
  )
  | inr e ↦ omega (
    arith,
    h j,
    count_rows-update_first (λ s. is_free s.lease) (λ s. leases_session j s.lease) (take_slot i now)
        slots (λ s k. absurd (ground (arith, e, k))),
  )
]

-- binding and releasing make no slot serve a further session
kept-IsServed :
    (p : Slot → Bool) (f : Slot → Slot) (slots : List Slot)
    → ((s : Slot) (j : Identity)
        → leases_session j (f s).lease ≡ true
        → leases_session j s.lease ≡ true)
    → IsServed slots
    → IsServed (update_first p f slots)
kept-IsServed p f slots fewer h j =
    omega (
      arith,
      h j,
      count_rows-update_first p (λ s. leases_session j s.lease) f slots (λ s. fewer s j),
    )

acquire_free-IsServed :
    (i : Identity) (now : ℕ) (o : Option Slot) (slots : List Slot)
    → exists_row (λ s. leases_session i s.lease) slots ≡ false
    → IsServed slots
    → IsServed (acquire_free i now o slots).1
unfolding acquire_free
acquire_free-IsServed i now none slots none_of h = h
acquire_free-IsServed i now (some s) slots none_of h = taken-IsServed i now slots none_of h

acquire_identity-IsServed :
    (i : Identity) (now : ℕ) (o : Option Slot) (slots : List Slot)
    → IsServed slots
    → IsServed (acquire_identity i now o slots).1
unfolding acquire_identity
acquire_identity-IsServed i now (some s) slots h = h
acquire_identity-IsServed i now none slots h =
    keeps_unless IsServed _ _ _ slots h λ none_of. acquire_free-IsServed i now _ slots none_of h

-- Acquiring, binding and releasing a slot, whether they succeed or raise, keep one slot at most for each
-- project, Worker and session.
pub pool-IsServed :
    (project actor session turn : String) (url : Option String) (now : ℕ) (slots : List Slot)
    → IsServed slots
    → IsServed (acquire_slot project actor session turn now slots).1
      × IsServed (bind_conversation project actor session turn url now slots).1
      × IsServed (release_slot project actor session turn now slots).1
unfolding acquire_slot bind_conversation release_slot
pool-IsServed project actor session turn url now slots h = (
  keeps_pool_identity IsServed project actor session turn _ slots h
      λ i t k. acquire_identity-IsServed i now _ t k,
  keeps_pool_identity IsServed project actor session turn _ slots h λ i t k.
      keeps_validate_conversation_url IsServed url _ t k λ canonical v m.
        keeps_raise_if IsServed _ _ _ v m (
          keeps_found IsServed _ _ _ v m λ s found. keeps_unless IsServed _ _ _ v m λ same.
            kept-IsServed (λ x. lease_matches i x.lease) (bind_slot canonical now) v
              (λ x j had. had) m),
  keeps_pool_identity IsServed project actor session turn _ slots h λ i t k.
      keeps_found IsServed _ _ _ t k
        λ s found. kept-IsServed (λ x. lease_matches i x.lease) (free_slot now) t (λ x j had. cc) k,
)
