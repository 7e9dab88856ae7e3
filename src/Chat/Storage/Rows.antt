-- ===== src/Chat/Storage/Rows.antt =====
-- What the statements on the tables do to the chats that messages name.
use text.Mathlib.Text.{◌==◌ as str_eq}
use freysa_spark_hackathon.Common.{
  ◌≡◌, refl, inl, inr, Bool, true, false, not, some, List, [], ◌∷◌, ◌++◌, map, String, keep, All,
  if◌then◌else◌, arith, Bool-cases, eq_iff,
}
use freysa_spark_hackathon.Chat.Storage.{ChatRow, MessageRow, Tables, find_chat, renamed}

-- A chat of this id is stored.
abbrev pub has_chat : List ChatRow → String → Bool
has_chat [] id = false
has_chat (row ∷ rows) id = if str_eq row.id id then true else has_chat rows id

abbrev pub IsLinked : Tables → Type 0
IsLinked s = All (λ (m : MessageRow). has_chat s.chats m.chat_id ≡ true) s.messages

pub find_chat-has :
    (id : String) (rows : List ChatRow) (chat : ChatRow)
    → find_chat id rows ≡ some chat
    → has_chat rows id ≡ true
unfolding find_chat
find_chat-has id [] chat e = cc
find_chat-has id (row ∷ rows) chat e = ground (arith, find_chat-has id rows chat)

pub has_chat-append :
    (rows more : List ChatRow) (id : String)
    → has_chat rows id ≡ true
    → has_chat (rows ++ more) id ≡ true
has_chat-append [] more id h = cc
has_chat-append (row ∷ rows) more id h = ground (arith, has_chat-append rows more id)

pub has_chat-renamed :
    (id title : String) (rows : List ChatRow) (j : String)
    → has_chat (map (renamed id title) rows) j ≡ has_chat rows j
has_chat-renamed id title [] j = refl
has_chat-renamed id title (row ∷ rows) j = elim (Bool-cases (str_eq row.id id)) [
  | inl h ↦ rw (h, has_chat-renamed id title rows j) refl
  | inr h ↦ rw (h, has_chat-renamed id title rows j) refl
]

-- A chat that is not the deleted one is kept.
pub has_chat-deleted :
    (id : String) (rows : List ChatRow) (j : String)
    → str_eq j id ≡ false
    → has_chat rows j ≡ true
    → has_chat (keep (λ (row : ChatRow). not (str_eq row.id id)) rows) j ≡ true
has_chat-deleted id [] j other h = cc
has_chat-deleted id (row ∷ rows) j other h = elim (Bool-cases (str_eq row.id id)) [
  | inl d ↦ elim (Bool-cases (str_eq row.id j)) [
    | inl e ↦
        let same : row.id ≡ j = (eq_iff row.id j).0 e in
        let clash : str_eq j id ≡ true = rw same at d in cc
    | inr e ↦ rw d (has_chat-deleted id rows j other (rw e at h))
  ]
  | inr d ↦ elim (Bool-cases (str_eq row.id j)) [
    | inl e ↦ rw (d, e) refl
    | inr e ↦ rw (d, e) (has_chat-deleted id rows j other (rw e at h))
  ]
]

module _ {A : Type 0} (P Q : A → Type 0) where
  pub All-map :
      (f : A → A) → ((x : A) → P x → Q (f x)) → (xs : List A) → All P xs → All Q (map f xs)
  All-map f step [] h = tt
  All-map f step (x ∷ xs) (h, hs) = (step x h, All-map f step xs hs)

  pub All-weaken : ((x : A) → P x → Q x) → (xs : List A) → All P xs → All Q xs
  All-weaken step [] h = tt
  All-weaken step (x ∷ xs) (h, hs) = (step x h, All-weaken step xs hs)

  pub All-keep_if :
      (p : A → Bool)
      → ((x : A) → p x ≡ true → P x → Q x)
      → (xs : List A) → All P xs
      → All Q (keep p xs)
  All-keep_if p step [] h = tt
  All-keep_if p step (x ∷ xs) (h, hs) = elim (Bool-cases (p x)) [
    | inl e ↦ rw e (step x e h, All-keep_if p step xs hs)
    | inr e ↦ rw e (All-keep_if p step xs hs)
  ]

pub All-append_one :
    {A : Type 0} (P : A → Type 0) (xs : List A) (x : A) → All P xs → P x → All P (xs ++ (x ∷ []))
All-append_one P [] x h p = (p, tt)
All-append_one P (y ∷ xs) x (h, hs) p = (h, All-append_one P xs x hs p)
