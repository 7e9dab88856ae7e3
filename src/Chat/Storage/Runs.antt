-- ===== src/Chat/Storage/Runs.antt =====
-- Any run of calls of the Postgres storage, as a run of the store of threads.
use mathlib.Core.Path.{fun_ext}
use freysa_spark_hackathon.Common.{◌≡◌, refl, ap, ◌∙◌, ℕ, Option, none, List, [], ◌∷◌, String}
use freysa_spark_hackathon.Chat.Storage.{Tables, Database, find_chat}
use freysa_spark_hackathon.Chat.Storage.Rows.{IsLinked}
use freysa_spark_hackathon.Chat.Storage.Links.{Call, after_call, after_call-IsLinked, after_calls}
use freysa_spark_hackathon.Chat.Storage.Threads.{Store, store_of, store_after}
use freysa_spark_hackathon.Chat.Storage.Refinement.{after_call-Refines}

-- A call with the id and the time that are given to what it makes.
pub record Stamped : Type 0 where
  pub new_id : String
  pub at : ℕ
  pub call : Call

abbrev pub store_after_calls : (String → Option String) → List Stamped → Store → Store
store_after_calls reads [] store = store
store_after_calls reads (c ∷ calls) store =
    store_after_calls reads calls (store_after reads c.new_id c.at c.call store)

module _ (db : Database) where
  abbrev pub stamped : List Call → Tables → List Stamped
  stamped [] s = []
  stamped (call ∷ calls) s =
      record { new_id = db.uuid s; at = db.now s; call = call }
      ∷ stamped calls (after_call db call s)

  -- No chat has the id that is generated next, at any time of the run.
  abbrev pub IsNew : List Call → Tables → Type 0
  IsNew [] s = Unit
  IsNew (call ∷ calls) s =
      (find_chat (db.uuid s) s.chats ≡ none) × IsNew calls (after_call db call s)

  -- A Postgres storage whose messages all belong to stored chats, and whose generated ids are new, goes
  -- through any run of calls as its store of threads does: the tables at the end, whichever of the calls
  -- threw, stand for the store after these calls, made with the same ids and times, and with the same reading
  -- of the texts that are given for ids.
  pub after_calls-Refines :
      (calls : List Call) (s : Tables)
      → IsLinked s
      → IsNew calls s
      → store_of (after_calls db calls s)
        ≡ store_after_calls db.uuid_of (stamped calls s) (store_of s)
  after_calls-Refines [] s linked new = refl
  after_calls-Refines (call ∷ calls) s linked (first, rest) =
      let step = fun_ext (λ c. after_call-Refines db call s c linked first) in
      after_calls-Refines calls (after_call db call s) (after_call-IsLinked db call s linked) rest
      ∙ ap (store_after_calls db.uuid_of (stamped calls (after_call db call s))) step
