-- ===== src/Binding/Provenance.antt =====
-- A binding keeps its actor, and each change of it names the conversation that it replaces.
use mathlib.Core.List.{◌∷◌}
use model_lib.Prelude.{
  ◌+◌, String, true, false, not, ◌||◌, Option, none, some, ◌≡◌, refl, sym, subst, ◌==◌, string_eq,
  eq_iff, arith, find_row, exists_row, find_row-holds, find_row-update_rows,
}
use model_lib.Text.{strip}
use model_lib.Tx.{ok, transaction, ◌>>◌}
use model_lib.Tx.Rules.{
  Commits, Commits-ok, Commits-return, Commits-raise_if, Commits-branch, Commits-fetch,
  Commits-transaction, Commits-write_unless,
}
use model_lib.Json.{Json, Codec}
use model_lib.Schema.{Db}
use model_lib.Schema.Rows.{BrowserBinding}
use model_lib.Tables.{Action}
use model_lib.Binding.{
  is_binding_of, find_binding, insert_binding, is_predecessor, is_given, first_binding, rebound,
  update_binding, rebind_existing, rebind_block, rebind_browser,
}

Commits-insert_binding :
    {A : Type 0} (P : A → Db → Type 0) (r : BrowserBinding) (k : Action A) (db : Db)
    → (exists_row (is_binding_of r.project_id r.channel) db.browser_bindings
            || not (exists_row (λ c. c.project_id == r.project_id) db.contracts)
          ≡ false
        → Commits P (k (record db { browser_bindings = r ∷ db.browser_bindings })))
    → Commits P ((insert_binding r >> k) db)
unfolding insert_binding
Commits-insert_binding P r k db h = Commits-write_unless P _ _ _ k db h

-- from one binding of a channel to the next
pub data Follows (actor url : String) (predecessor : Option String)
    : Option BrowserBinding → BrowserBinding → Type 0 where
  initial :
      (b : BrowserBinding)
      → b.actor_id ≡ actor
      → b.conversation_url ≡ url
      → b.generation ≡ 0
      → predecessor ≡ none
      → Follows actor url predecessor none b
  same :
      (b : BrowserBinding)
      → b.actor_id ≡ actor
      → b.conversation_url ≡ url
      → Follows actor url predecessor (some b) b
  next :
      (e b : BrowserBinding)
      → e.actor_id ≡ actor
      → b.actor_id ≡ actor
      → b.conversation_url ≡ url
      → b.generation ≡ e.generation + 1
      → predecessor ≡ some e.conversation_url
      → b.predecessor_url ≡ some e.conversation_url
      → Follows actor url predecessor (some e) b

not_given : (o : Option String) → is_given o ≡ false → o ≡ none
not_given none h = refl
not_given (some u) h = cc

given_before : (url : String) (o : Option String) → is_predecessor url o ≡ true → o ≡ some url
given_before url none h = cc
given_before url (some u) h = ground (arith, h, eq_iff u url)

module _ (codec : Codec) (p c actor url : String) (predecessor : Option String) (why : String)
    (evidence : Json) (db : Db) where
  abbrev pub Bound : BrowserBinding → Db → Type 0
  Bound b after =
      (find_binding p c after ≡ some b) × Follows actor url predecessor (find_binding p c db) b

  find_binding-inserted :
      (b : BrowserBinding)
      → find_binding p c (record db {
        browser_bindings =
            first_binding codec p c actor url predecessor why evidence ∷ db.browser_bindings;
      })
        ≡ some b
      → b ≡ first_binding codec p c actor url predecessor why evidence
  unfolding find_binding find_row
  find_binding-inserted b seen = ground (arith, seen, eq_iff p p, eq_iff c c)

  find_binding-update_binding :
      (e : BrowserBinding)
      → find_binding p c db ≡ some e
      → find_binding p c (update_binding codec p c actor url predecessor why evidence db)
        ≡ some (rebound codec p c actor url predecessor why evidence e)
  unfolding find_binding update_binding
  find_binding-update_binding e found = ground (
    arith,
    found,
    find_row-holds (is_binding_of p c) db.browser_bindings found,
    find_row-update_rows (is_binding_of p c) (is_binding_of p c)
        (rebound codec p c actor url predecessor why evidence) db.browser_bindings (λ x. refl),
  )

  rebind_existing-Bound :
      (o : Option BrowserBinding)
      → find_binding p c db ≡ o
      → Commits Bound (rebind_existing codec p c actor url predecessor why evidence o db)
  unfolding rebind_existing
  rebind_existing-Bound none found = Commits-raise_if _ _ _ _ _ λ given.
      Commits-insert_binding _ _ _ _ λ free. Commits-fetch _ _ _ _ λ b seen. (
        seen,
        subst (λ o. Follows actor url predecessor o b) (sym found)
            (let is_first = find_binding-inserted b seen in
              initial b (cc is_first) (cc is_first) (cc is_first)
                (not_given predecessor (ground (arith, given)))),
      )
  rebind_existing-Bound (some e) found = Commits-raise_if _ _ _ _ _ λ actor_same.
      Commits-branch _ _ _ _ _
        (λ url_same. Commits-return _ _ _ (
          found,
          subst (λ o. Follows actor url predecessor o e) (sym found)
              (same e (ground (arith, actor_same, eq_iff e.actor_id actor))
                (ground (arith, url_same, eq_iff e.conversation_url url))),
        ))
        (λ _. Commits-raise_if _ _ _ _ _ λ proved. Commits-fetch _ _ _ _ λ b seen. (
          seen,
          subst (λ o. Follows actor url predecessor o b) (sym found)
              (moved e b (ground (arith, actor_same, eq_iff e.actor_id actor))
                (given_before e.conversation_url predecessor (ground (arith, proved)))
                (cc (seen, find_binding-update_binding e found))),
        ))
    where
      moved :
          (e b : BrowserBinding)
          → e.actor_id ≡ actor
          → predecessor ≡ some e.conversation_url
          → b ≡ rebound codec p c actor url predecessor why evidence e
          → Follows actor url predecessor (some e) b
      moved e b kept before h = next e b kept (cc (h, kept)) (cc h) (cc h) before (cc (h, before))

  rebind_block-Bound : Commits Bound (rebind_block codec p c actor url predecessor why evidence db)
  unfolding rebind_block
  rebind_block-Bound = Commits-raise_if _ _ _ _ _ λ _. rebind_existing-Bound _ refl

-- A rebinding that returns has bound the channel to the conversation and the actor it was called with: for
-- the first time, at generation 0 and without a predecessor; or again, unchanged; or in place of the
-- conversation that it names as the predecessor, under the same actor and at the next generation.
pub rebind_browser_lem :
    (codec : Codec) (project_id channel actor_id conversation_url : String)
    (predecessor_url : Option String) (reason : String) (evidence : Json) (db : Db)
    {b : BrowserBinding}
    → let done =
        rebind_browser codec project_id channel actor_id conversation_url predecessor_url reason
          evidence db in
      done.0 ≡ ok b
      → (find_binding project_id channel done.1 ≡ some b)
        × Follows
            (strip actor_id)
            (strip conversation_url)
            predecessor_url
            (find_binding project_id channel db)
            b
unfolding rebind_browser
rebind_browser_lem codec p c actor_id conversation_url predecessor reason evidence db h =
    let actor = strip actor_id in
    let url = strip conversation_url in
    let why = strip reason in
    let P : BrowserBinding → Db → Type 0 = Bound codec p c actor url predecessor why evidence db in
    let body = rebind_block codec p c actor url predecessor why evidence in
    Commits-ok P (transaction body db)
      (Commits-transaction P body db
        (rebind_block-Bound codec p c actor url predecessor why evidence db))
      h
