-- ===== src/Chat/Storage/Selections.antt =====
-- What a statement on the tables does to what a query of one chat selects.
use mathlib.Core.Path.{subst}
use text.Mathlib.Text.{◌==◌ as str_eq}
use freysa_spark_hackathon.Common.{
  ◌≡◌, refl, inl, inr, Bool, true, false, not, Option, none, some, List, [], ◌∷◌, ◌++◌, map, String,
  keep, All, Bool-cases, eq_iff,
}
use freysa_spark_hackathon.Chat.Types.{CreateMessageInput}
use freysa_spark_hackathon.Chat.Storage.{
  ChatRow, MessageRow, find_chat, is_of, renamed, rewritten, map_row_to_message,
}
use freysa_spark_hackathon.Chat.Storage.Rows.{has_chat}
use freysa_spark_hackathon.Chat.Storage.Threads.{edited}

pub find_chat-append_other :
    (c : String) (rows : List ChatRow) (row : ChatRow)
    → str_eq row.id c ≡ false
    → find_chat c (rows ++ (row ∷ [])) ≡ find_chat c rows
unfolding find_chat
find_chat-append_other c [] row other = rw other refl
find_chat-append_other c (r ∷ rows) row other = rw (find_chat-append_other c rows row other) refl

pub find_chat-append_new :
    (c : String) (rows : List ChatRow) (row : ChatRow)
    → find_chat c rows ≡ none
    → str_eq row.id c ≡ true
    → find_chat c (rows ++ (row ∷ [])) ≡ some row
unfolding find_chat
find_chat-append_new c [] row new same = rw same refl
find_chat-append_new c (r ∷ rows) row new same = elim (Bool-cases (str_eq r.id c)) [
  | inl h ↦ let bad = rw h at new in cc
  | inr h ↦ let rest = rw h at new in rw h (find_chat-append_new c rows row rest same)
]

pub find_chat-has_none :
    (c : String) (rows : List ChatRow) → find_chat c rows ≡ none → has_chat rows c ≡ false
unfolding find_chat
find_chat-has_none c [] e = refl
find_chat-has_none c (r ∷ rows) e = elim (Bool-cases (str_eq r.id c)) [
  | inl h ↦ let bad = rw h at e in cc
  | inr h ↦ let rest = rw h at e in rw h (find_chat-has_none c rows rest)
]

-- A chat that is not stored has no messages.
pub keep-unlinked :
    (rows : List ChatRow) (c : String) (ms : List MessageRow)
    → has_chat rows c ≡ false
    → All (λ (m : MessageRow). has_chat rows m.chat_id ≡ true) ms
    → keep (is_of c) ms ≡ []
keep-unlinked rows c [] e h = refl
keep-unlinked rows c (m ∷ ms) e (p, h) = elim (Bool-cases (is_of c m)) [
  | inl same ↦
      let there : m.chat_id ≡ c = (eq_iff m.chat_id c).0 same in
      let bad : has_chat rows c ≡ true = subst (λ d. has_chat rows d ≡ true) there p in cc
  | inr other ↦ rw other (keep-unlinked rows c ms e h)
]

pub find_chat-renamed_other :
    (id title c : String) (rows : List ChatRow)
    → str_eq id c ≡ false
    → find_chat c (map (renamed id title) rows) ≡ find_chat c rows
unfolding find_chat
find_chat-renamed_other id title c [] other = refl
find_chat-renamed_other id title c (r ∷ rows) other = elim (Bool-cases (str_eq r.id id)) [
  | inl h ↦
      let same : r.id ≡ id = (eq_iff r.id id).0 h in
      let away : str_eq r.id c ≡ false = rw same other in
      rw (h, away) (find_chat-renamed_other id title c rows other)
  | inr h ↦ rw (h, find_chat-renamed_other id title c rows other) refl
]

abbrev pub with_title : String → Option ChatRow → Option ChatRow
with_title title none = none
with_title title (some row) = some (record row { name = title })

pub find_chat-renamed_same :
    (id title : String) (rows : List ChatRow)
    → find_chat id (map (renamed id title) rows) ≡ with_title title (find_chat id rows)
unfolding find_chat
find_chat-renamed_same id title [] = refl
find_chat-renamed_same id title (r ∷ rows) = elim (Bool-cases (str_eq r.id id)) [
  | inl h ↦ rw (h, h) refl
  | inr h ↦ rw (h, h, find_chat-renamed_same id title rows) refl
]

pub find_chat-kept_other :
    (id c : String) (rows : List ChatRow)
    → str_eq id c ≡ false
    → find_chat c (keep (λ (row : ChatRow). not (str_eq row.id id)) rows) ≡ find_chat c rows
unfolding find_chat
find_chat-kept_other id c [] other = refl
find_chat-kept_other id c (r ∷ rows) other = elim (Bool-cases (str_eq r.id id)) [
  | inl h ↦
      let same : r.id ≡ id = (eq_iff r.id id).0 h in
      let away : str_eq r.id c ≡ false = rw same other in
      rw (h, away) (find_chat-kept_other id c rows other)
  | inr h ↦ rw (h, find_chat-kept_other id c rows other) refl
]

pub keep-kept_other :
    (id c : String) (ms : List MessageRow)
    → str_eq id c ≡ false
    → keep (is_of c) (keep (λ (m : MessageRow). not (is_of id m)) ms) ≡ keep (is_of c) ms
keep-kept_other id c [] other = refl
keep-kept_other id c (m ∷ ms) other = elim (Bool-cases (is_of id m)) [
  | inl h ↦
      let same : m.chat_id ≡ id = (eq_iff m.chat_id id).0 h in
      let away : is_of c m ≡ false = rw same other in rw (h, away) (keep-kept_other id c ms other)
  | inr h ↦ rw (h, keep-kept_other id c ms other) refl
]

pub keep-append :
    {A : Type 0} (p : A → Bool) (xs ys : List A) → keep p (xs ++ ys) ≡ keep p xs ++ keep p ys
keep-append p [] ys = refl
keep-append p (x ∷ xs) ys = elim (Bool-cases (p x)) [
  | inl h ↦ rw (h, keep-append p xs ys) refl
  | inr h ↦ rw (h, keep-append p xs ys) refl
]

pub keep-rewritten :
    (id : String) (input : CreateMessageInput) (c : String) (ms : List MessageRow)
    → map map_row_to_message (keep (is_of c) (map (rewritten id input) ms))
      ≡ map (edited id input) (map map_row_to_message (keep (is_of c) ms))
keep-rewritten id input c [] = refl
keep-rewritten id input c (m ∷ ms) = elim (Bool-cases (str_eq m.id id)) [
  | inl h ↦ elim (Bool-cases (is_of c m)) [
    | inl e ↦ rw (h, e, h, keep-rewritten id input c ms) refl
    | inr e ↦ rw (h, e, keep-rewritten id input c ms) refl
  ]
  | inr h ↦ elim (Bool-cases (is_of c m)) [
    | inl e ↦ rw (h, e, h, keep-rewritten id input c ms) refl
    | inr e ↦ rw (h, e, keep-rewritten id input c ms) refl
  ]
]
