-- ===== src/Bridge/Chat/Apart.antt =====
-- New chats are opened apart from each other, and not while the throttle holds.
use model_lib.Prelude.{
  ℕ, String, true, false, ◌||◌, Option, none, some, ◌≡◌, ◌≢◌, refl, subst, arith, ltb,
}
use model_lib.Tx.{ok}
use model_lib.Tx.Rules.{Commits-return, Commits-ok, Commits-raise_if}
use model_lib.Stamp.{plus_seconds}
use model_lib.Bridge.Rules.{Commits-require_text}
use model_lib.Bridge.Chat.{
  ChatState, is_before, permission, reserve_new_chat, later_of, note_throttle,
}

-- the state lets a chat be opened, and the next one only after the cooldown
record Reserved (cooldown now : ℕ) (before after : ChatState) : Type 0 where
  unthrottled : is_before now before.throttle_not_before ≡ false
  cooled : is_before now before.creation_not_before ≡ false
  next : after.creation_not_before ≡ some (plus_seconds now cooldown)

reserve_new_chat-Reserved :
    (cooldown : ℕ) (owner : String) (now : ℕ) (state : ChatState) {a : ChatState}
    → (reserve_new_chat cooldown owner now state).0 ≡ ok a
    → Reserved cooldown now state (reserve_new_chat cooldown owner now state).1
unfolding reserve_new_chat permission
reserve_new_chat-Reserved cooldown owner now state h =
    Commits-ok (λ _. Reserved cooldown now state) (reserve_new_chat cooldown owner now state)
      (Commits-require_text _ _ _ _ _ (
        Commits-raise_if _ _ _ _ _ λ allowed. Commits-return _ _ _ (record {
          unthrottled = ground (arith, allowed);
          cooled = ground (arith, allowed);
          next = refl;
        })))
      h

note_throttle-later :
    (backoff : ℕ) (reason : String) (now : ℕ) (state : ChatState) {a : ChatState}
    → (note_throttle backoff reason now state).0 ≡ ok a
    → (note_throttle backoff reason now state).1.throttle_not_before
      ≡ some (later_of (plus_seconds now backoff) state.throttle_not_before)
unfolding note_throttle
note_throttle-later backoff reason now state h =
    Commits-ok
      (λ _ after.
        after.throttle_not_before
        ≡ some (later_of (plus_seconds now backoff) state.throttle_not_before))
      (note_throttle backoff reason now state)
      (Commits-require_text _ _ _ _ _ (Commits-return _ _ _ refl)) h

-- After a chat is reserved, none is reserved before the cooldown has passed.
pub chats_are_apart :
    (cooldown : ℕ) (owner other : String) (now later : ℕ) (state : ChatState) {a b : ChatState}
    → (reserve_new_chat cooldown owner now state).0 ≡ ok a
    → ltb later (plus_seconds now cooldown) ≡ true
    → (reserve_new_chat cooldown other later (reserve_new_chat cooldown owner now state).1).0 ≢ ok b
chats_are_apart cooldown owner other now later state reserved early again =
    let first = reserve_new_chat-Reserved cooldown owner now state reserved in
    let second =
      reserve_new_chat-Reserved cooldown other later (reserve_new_chat cooldown owner now state).1
        again in
    absurd (ground (arith, first.next, second.cooled, early))

-- After a throttle is noted, no chat is reserved before the backoff has passed, nor before the end of a
-- throttle that was noted earlier.
pub throttle_holds :
    (cooldown backoff : ℕ) (reason owner : String) (now later : ℕ) (state : ChatState)
    {a b : ChatState}
    → (note_throttle backoff reason now state).0 ≡ ok a
    → (ltb later (plus_seconds now backoff) || is_before later state.throttle_not_before) ≡ true
    → (reserve_new_chat cooldown owner later (note_throttle backoff reason now state).1).0 ≢ ok b
throttle_holds cooldown backoff reason owner now later state noted early again =
    let second =
      reserve_new_chat-Reserved cooldown owner later (note_throttle backoff reason now state).1
        again in
    absurd (
      holds (plus_seconds now backoff) state.throttle_not_before early (
        subst (λ t. is_before later t ≡ false) (note_throttle-later backoff reason now state noted)
          second.unthrottled))
  where
    holds :
        (requested : ℕ) (o : Option ℕ)
        → (ltb later requested || is_before later o) ≡ true
        → is_before later (some (later_of requested o)) ≡ false
        → ⊥
    holds requested none early free = ground (arith, early, free)
    holds requested (some t) early free = ground (arith, early, free)
