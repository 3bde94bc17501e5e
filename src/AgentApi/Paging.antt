-- ===== src/AgentApi/Paging.antt =====
-- `TaskStore.list` of agent_api/store.py and the tokens of its pages. `rank` is the place of an id
-- in the order of the database; a token is what `decode_cursor` reads of it.
pub mod Order
pub mod Pages
use wotbot.Base.{
  ℕ, zero, suc, String, Bool, true, ◌&&◌, ◌||◌, Option, none, some, List, [], ◌∷◌, ◌++◌, map,
  length, take, keep_if, ltb, leb, nat_eq, ◌==◌, if◌then◌else◌,
}
use wotbot.Base.Dict.{values}
use wotbot.Json.{Json, str, num, null, list}
use wotbot.AgentApi.Types.{
  TaskState, submitted, working, input_required, auth_required, completed, failed, canceled,
  rejected, Task, Family, Error, invalid_params, Result, ok, err, ◌>>=◌,
}
use wotbot.AgentApi.Tables.{TaskRow, Db, family_eq}

-- Where a page ends: the time and the id of its last task, and the hash of the filters.
pub record Cursor : Type 0 where
  pub updated : ℕ
  pub identifier : String
  pub filters : String

pub data PageToken : Type 0 where
  first : PageToken
  at : Cursor → PageToken
  unreadable : PageToken

pub record TaskQuery : Type 0 where
  pub context_id : String
  pub page_size : ℕ
  pub page_token : PageToken
  pub status : Option TaskState
  pub status_timestamp_after : Option ℕ
  pub family : Family

abbrev pub state_name : TaskState → String
state_name submitted = "TASK_STATE_SUBMITTED"
state_name working = "TASK_STATE_WORKING"
state_name input_required = "TASK_STATE_INPUT_REQUIRED"
state_name auth_required = "TASK_STATE_AUTH_REQUIRED"
state_name completed = "TASK_STATE_COMPLETED"
state_name failed = "TASK_STATE_FAILED"
state_name canceled = "TASK_STATE_CANCELED"
state_name rejected = "TASK_STATE_REJECTED"

abbrev pub family_name : Family → String
family_name Family.assistant = "assistant"
family_name Family.raw = "raw"

abbrev pub bad_size : Error
bad_size = invalid_params "pageSize must be between 1 and 100"

abbrev pub bad_token : Error
bad_token = invalid_params "Invalid pageToken for this query"

abbrev pub has_state : Option TaskState → TaskRow → Bool
has_state none r = true
has_state (some s) r = state_name r.state == state_name s

abbrev pub is_since : Option ℕ → TaskRow → Bool
is_since none r = true
is_since (some t) r = leb t r.updated_at

-- The `WHERE` clauses without the cursor.
abbrev pub is_listed : String → TaskQuery → ℕ → TaskRow → Bool
is_listed owner q now r =
    r.owner == owner
    && ltb now r.expires_at
    && family_eq r.family q.family
    && (q.context_id == "" || r.payload.context_id == q.context_id)
    && has_state q.status r
    && is_since q.status_timestamp_after r

abbrev pub size_of : ℕ → ℕ
size_of zero = 50
size_of (suc n) = suc n

abbrev pub last : List TaskRow → Option TaskRow
last [] = none
last (r ∷ []) = some r
last (r ∷ s ∷ rows) = last (s ∷ rows)

abbrev pub token_behind : String → Option TaskRow → PageToken
token_behind filters none = first
token_behind filters (some r) =
    at (record { updated = r.updated_at; identifier = r.id; filters = filters })

-- The token of the next page, from the rows that were read and the page.
abbrev pub next_token : String → ℕ → List TaskRow → PageToken
next_token filters size rows =
    if ltb size (length rows) then token_behind filters (last (take size rows)) else first

abbrev pub filter_hash : (Json → String) → String → TaskQuery → String
filter_hash digest owner q = digest (
    list (
      str owner
      ∷ str (family_name q.family)
      ∷ str q.context_id
      ∷ (elim q.status [ none ↦ null | some s ↦ str (state_name s) ])
      ∷ (elim q.status_timestamp_after [ none ↦ null | some t ↦ num t ])
      ∷ []))

abbrev pub cursor_of : String → PageToken → Result (Option Cursor)
cursor_of filters first = ok none
cursor_of filters (at c) = if c.filters == filters then ok (some c) else err bad_token
cursor_of filters unreadable = err bad_token

-- A page and the pages behind it.
abbrev pub follow : (Cursor → Result (List Task)) → List Task × ℕ × PageToken → Result (List Task)
follow rest (page, total, first) = ok page
follow rest (page, total, unreadable) = err bad_token
follow rest (page, total, at c) = rest c >>= λ more. ok (page ++ more)

module _ (rank : String → ℕ) where
  -- The row stands behind the place `(updated, identifier)` of the descending order.
  abbrev pub is_behind : ℕ → String → TaskRow → Bool
  is_behind updated identifier r =
      ltb r.updated_at updated || (nat_eq r.updated_at updated && ltb (rank r.id) (rank identifier))

  -- `ORDER BY updated_at DESC, id DESC`
  unfoldable pub place : TaskRow → List TaskRow → List TaskRow
  place r [] = r ∷ []
  place r (s ∷ rows) = if is_behind r.updated_at r.id s then r ∷ s ∷ rows else s ∷ place r rows

  unfoldable pub ordered : List TaskRow → List TaskRow
  unfolding place
  ordered [] = []
  ordered (r ∷ rows) = place r (ordered rows)

  abbrev pub behind_cursor : Option Cursor → List TaskRow → List TaskRow
  behind_cursor none rows = rows
  behind_cursor (some c) rows = keep_if (is_behind c.updated c.identifier) rows

  module _ (digest : Json → String) where
    -- The tasks of a page, the number of all tasks and the token of the next page.
    unfoldable pub list_tasks : Db → String → TaskQuery → ℕ → Result (List Task × ℕ × PageToken)
    unfolding ordered
    list_tasks db owner q now = if ltb 100 q.page_size then err bad_size else do
      let size = size_of q.page_size
      let filters = filter_hash digest owner q
      let query = keep_if (is_listed owner q now) (values db.tasks)
      cursor ← cursor_of filters q.page_token
      let rows = take (suc size) (ordered (behind_cursor cursor query))
      ok (
        map (λ (r : TaskRow). r.payload) (take size rows),
        length query,
        next_token filters size rows,
      )

    -- A caller that follows the tokens, with fuel.
    unfoldable pub all_pages : ℕ → Db → String → TaskQuery → ℕ → Result (List Task)
    unfolding list_tasks
    all_pages zero db owner q now = ok []
    all_pages (suc fuel) db owner q now =
        list_tasks db owner q now
        >>= follow (λ c. all_pages fuel db owner (record q { page_token = at c }) now)
