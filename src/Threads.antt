-- ===== src/Threads.antt =====
-- The conversations (apps/wotbot/src/wotbot/threads): the store of threads/store.py on the table of
-- threads. An insert that another request has overtaken is left out. `now` prints the time; `fresh_id` is the `uuid4`.
pub mod Titles
pub mod Tests
use wotbot.Base.{
  ℕ, ◌≤◌, String, ◌≡◌, ◌≢◌, ◌⊎◌, inl, inr, refl, sym, ap, ◌∙◌, subst, Bool, true, false, not, ◌&&◌,
  ◌||◌, Option, none, some, List, [], ◌∷◌, arith, Bool-cases, Option-cases, truthy, str_or, ◌==◌,
  eq_iff, keep_if, if◌then◌else◌, length, take, length-take-le,
}
use wotbot.Base.Dict.{Dict, lookup, insert, erase, values, lookup-insert_self, lookup-insert_ne}
use wotbot.Base.Text.{strip, first_chars, count_chars, chars, of_chars, chars-of_chars}
use wotbot.Jobs.Records.{Thread, ThreadKind, chat}

abbrev pub default_thread_title : String
default_thread_title = "New Chat"

abbrev pub max_thread_title_length : ℕ
max_thread_title_length = 50

-- `_clean_title`
unfoldable pub clean_title : Option String → Option String → Option String
unfolding strip
clean_title none default = default
clean_title (some title) default =
    let cleaned = first_chars max_thread_title_length (strip title) in
    if cleaned == "" then default else some cleaned

abbrev pub or_text : Option String → String → String
or_text none t = t
or_text (some s) t = if s == "" then t else s

abbrev pub is_chat : ThreadKind → Bool
is_chat chat = true
is_chat _ = false

-- `list`, before the database orders the rows.
abbrev pub listed : Bool → Dict Thread → List Thread
listed include_hidden threads =
    keep_if (λ (t : Thread). include_hidden || (is_chat t.kind && t.visible)) (values threads)

abbrev pub created_thread :
    String
    → String
    → Option String
    → Option String
    → ThreadKind
    → Bool
    → Option String
    → String
    → Thread
created_thread id title created_at updated_at kind visible job_id now =
    let record_created_at = or_text created_at now in
    record {
      id = id;
      title = or_text (clean_title (some title) (some default_thread_title)) default_thread_title;
      created_at = record_created_at;
      updated_at = or_text updated_at record_created_at;
      kind = kind;
      visible = visible;
      job_id = job_id;
    }

abbrev pub add_new : Dict Thread → String → Thread → Option Thread → Thread × Dict Thread
add_new threads record_id thread none = (thread, insert record_id thread threads)
add_new threads record_id thread (some old) = (old, threads)

-- `create`: an id that is there is answered with the row that is there.
unfoldable pub create :
    Dict Thread
    → Option String
    → String
    → Option String
    → Option String
    → ThreadKind
    → Bool
    → Option String
    → String
    → String
    → Thread × Dict Thread
unfolding clean_title
create threads thread_id title created_at updated_at kind visible job_id fresh_id now =
    let record_id = or_text thread_id fresh_id in
    let thread = created_thread record_id title created_at updated_at kind visible job_id now in
    add_new threads record_id thread (lookup record_id threads)

abbrev pub synced_thread : Option String → String → Thread → Thread
synced_thread next_title now thread =
    let title' : String = elim next_title [
      | none ↦ thread.title
      | some t ↦ if thread.title == default_thread_title then t else thread.title
    ] in
    record thread { title = title'; updated_at = now }

abbrev pub sync_found :
    Dict Thread → String → Option String → String → Option Thread → Option Thread × Dict Thread
sync_found threads thread_id next_title now none = (none, threads)
sync_found threads thread_id next_title now (some thread) =
    let thread' = synced_thread next_title now thread in
    (some thread', insert thread_id thread' threads)

-- `sync_after_run`; `touch` calls it without a title.
unfoldable pub sync_after_run :
    Dict Thread → String → Option String → String → Option Thread × Dict Thread
unfolding clean_title
sync_after_run threads thread_id suggested_title now =
    sync_found threads thread_id (clean_title suggested_title none) now (lookup thread_id threads)

abbrev pub named_thread : String → String → String → Thread
named_thread id title now = record {
  id = id;
  title = title;
  created_at = now;
  updated_at = now;
  kind = chat;
  visible = true;
  job_id = none;
}

abbrev pub retitled : Bool → String → String → Thread → Thread
retitled force title now thread =
    if force || thread.title == default_thread_title
    then record thread { title = title; updated_at = now }
    else thread

abbrev pub with_title : String → String → Bool → String → Option Thread → Thread
with_title thread_id title force now none = named_thread thread_id title now
with_title thread_id title force now (some thread) = retitled force title now thread

abbrev pub save_title :
    Dict Thread → String → Bool → String → Option String → Option (Thread × Dict Thread)
save_title threads thread_id force now none = none
save_title threads thread_id force now (some title) =
    let thread = with_title thread_id title force now (lookup thread_id threads) in
    some (thread, insert thread_id thread threads)

-- `update_title`; `none` is the ValueError "Title is required".
unfoldable pub update_title :
    Dict Thread → String → String → Bool → String → Option (Thread × Dict Thread)
unfolding clean_title
update_title threads thread_id title force now =
    save_title threads thread_id force now (clean_title (some title) none)

abbrev pub delete_found : Dict Thread → String → Option Thread → Bool × Dict Thread
delete_found threads thread_id none = (false, threads)
delete_found threads thread_id (some thread) = (true, erase thread_id threads)

unfoldable pub delete : Dict Thread → String → Bool × Dict Thread
delete threads thread_id = delete_found threads thread_id (lookup thread_id threads)

-- A title that a user can read in the sidebar.
abbrev pub IsTitle : String → Type 0
IsTitle title = (title ≢ "") × (count_chars title ≤ 50)

-- A cleaned title is not empty and has at most 50 characters, or is the default.
clean_title-IsTitle :
    (title default : Option String) (s : String)
    → clean_title title default ≡ some s
    → (default ≡ some s) ⊎ IsTitle s
unfolding clean_title
clean_title-IsTitle none default s h = inl h
clean_title-IsTitle (some title) default s h =
    let cleaned = first_chars 50 (strip title) in
    elim (Bool-cases (cleaned == "")) [
      | inl e ↦ inl (rw e at h)
      | inr e ↦
          let same : cleaned ≡ s = ground (arith, rw e at h) in
          inr (
            subst IsTitle same (
              λ p. cc (e, (eq_iff cleaned "").1 p),
              subst (λ cs. length cs ≤ 50) (sym (chars-of_chars (take 50 (chars (strip title)))))
                  (length-take-le 50 (chars (strip title))),
            ))
    ]
