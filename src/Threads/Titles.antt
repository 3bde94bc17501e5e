-- ===== src/Threads/Titles.antt =====
-- What the store of threads keeps: readable titles, and the user's own.
use wotbot.Base.{
  String, ◌≡◌, ◌≢◌, ◌⊎◌, inl, inr, refl, sym, ap, ◌∙◌, subst, Bool, false, ◌||◌, Option, none, some,
  arith, Bool-cases, ◌==◌, eq_iff,
}
use wotbot.Base.Dict.{
  Dict, lookup, insert, erase, lookup-insert_self, lookup-insert_cases, lookup-erase,
}
use wotbot.Jobs.Records.{Thread, ThreadKind}
use wotbot.Threads.{
  default_thread_title, clean_title, or_text, created_thread, add_new, create, synced_thread,
  sync_found, sync_after_run, retitled, with_title, save_title, update_title, delete_found, delete,
  IsTitle, clean_title-IsTitle,
}

default-IsTitle : IsTitle default_thread_title
default-IsTitle = (λ p. ground (arith, (eq_iff default_thread_title "").1 p), omega arith)

-- Every thread has a readable title.
abbrev pub Titled : Dict Thread → Type 0
Titled threads = (k : String) (t : Thread) → lookup k threads ≡ some t → IsTitle t.title

insert-Titled :
    (k : String) (t : Thread) (threads : Dict Thread)
    → Titled threads
    → IsTitle t.title
    → Titled (insert k t threads)
insert-Titled k t threads h title j x e = elim (lookup-insert_cases k j t x threads e) [
  | inl (_, same) ↦ subst (λ (y : Thread). IsTitle y.title) (sym same) title
  | inr (_, old) ↦ h j x old
]

erase-Titled : (k : String) (threads : Dict Thread) → Titled threads → Titled (erase k threads)
erase-Titled k threads h j x e = elim (Bool-cases (k == j)) [
  | inl same ↦ absurd (ground (arith, same, e, lookup-erase k j threads))
  | inr other ↦ h j x (ground (arith, other, e, lookup-erase k j threads))
]

-- One call of the store that changes it.
pub data ThreadStep (threads : Dict Thread) : Dict Thread → Type 0 where
  creates :
      (thread_id : Option String) (title : String) (created_at updated_at : Option String)
      (kind : ThreadKind) (visible : Bool) (job_id : Option String) (fresh_id now : String)
      → ThreadStep threads (
          (create threads thread_id title created_at updated_at kind visible job_id fresh_id now).1)
  syncs :
      (thread_id : String) (suggested_title : Option String) (now : String)
      → ThreadStep threads ((sync_after_run threads thread_id suggested_title now).1)
  renames :
      {threads' : Dict Thread} {thread : Thread} (thread_id title : String) (force : Bool)
      (now : String)
      → update_title threads thread_id title force now ≡ some (thread, threads')
      → ThreadStep threads threads'
  deletes : (thread_id : String) → ThreadStep threads ((delete threads thread_id).1)

or_default-IsTitle :
    (o : Option String)
    → ((s : String) → o ≡ some s → (some default_thread_title ≡ some s) ⊎ IsTitle s)
    → IsTitle (or_text o default_thread_title)
or_default-IsTitle none h = default-IsTitle
or_default-IsTitle (some s) h = elim (Bool-cases (s == "")) [
  | inl e ↦ rw e default-IsTitle
  | inr e ↦ rw e (elim (h s refl) [
    | inl d ↦
        subst IsTitle (let q : default_thread_title ≡ s = ground (arith, d) in q) default-IsTitle
    | inr t ↦ t
  ])
]

no_default : (title : Option String) (s : String) → clean_title title none ≡ some s → IsTitle s
no_default title s e = elim (clean_title-IsTitle title none s e) [ inl d ↦ cc | inr t ↦ t ]

synced-IsTitle :
    (o : Option String) (now : String) (thread : Thread)
    → ((s : String) → o ≡ some s → IsTitle s)
    → IsTitle thread.title
    → IsTitle (synced_thread o now thread).title
synced-IsTitle none now thread h old = old
synced-IsTitle (some s) now thread h old =
    elim (Bool-cases (thread.title == default_thread_title)) [
      | inl e ↦ rw e (h s refl)
      | inr e ↦ rw e old
    ]

retitled-IsTitle :
    (force : Bool) (title now : String) (thread : Thread)
    → IsTitle title
    → IsTitle thread.title
    → IsTitle (retitled force title now thread).title
retitled-IsTitle force title now thread new old =
    elim (Bool-cases (force || thread.title == default_thread_title)) [
      | inl e ↦ rw e new
      | inr e ↦ rw e old
    ]

module _ (threads : Dict Thread) (h : Titled threads) where
  add_new-Titled :
      (id : String) (thread : Thread) (o : Option Thread)
      → IsTitle thread.title
      → Titled ((add_new threads id thread o).1)
  add_new-Titled id thread none t = insert-Titled id thread threads h t
  add_new-Titled id thread (some old) t = h

  sync_found-Titled :
      (id : String) (title : Option String) (now : String) (o : Option Thread)
      → lookup id threads ≡ o
      → ((s : String) → title ≡ some s → IsTitle s)
      → Titled ((sync_found threads id title now o).1)
  sync_found-Titled id title now none e t = h
  sync_found-Titled id title now (some thread) e t =
      insert-Titled id (synced_thread title now thread) threads h
        (synced-IsTitle title now thread t (h id thread e))

  delete_found-Titled : (id : String) (o : Option Thread) → Titled ((delete_found threads id o).1)
  delete_found-Titled id none = h
  delete_found-Titled id (some thread) = erase-Titled id threads h

  with_title-IsTitle :
      (id title : String) (force : Bool) (now : String) (o : Option Thread)
      → lookup id threads ≡ o
      → IsTitle title
      → IsTitle (with_title id title force now o).title
  with_title-IsTitle id title force now none e t = t
  with_title-IsTitle id title force now (some thread) e t =
      retitled-IsTitle force title now thread t (h id thread e)

  save_title-Titled :
      (id : String) (force : Bool) (now : String) (o : Option String) (thread : Thread)
      (threads' : Dict Thread)
      → ((s : String) → o ≡ some s → IsTitle s)
      → save_title threads id force now o ≡ some (thread, threads')
      → Titled threads'
  save_title-Titled id force now none thread threads' t e = cc
  save_title-Titled id force now (some title) thread threads' t e =
      let thread₁ = with_title id title force now (lookup id threads) in
      let same : insert id thread₁ threads ≡ threads' = cc (e) in
      subst Titled same (
        insert-Titled id thread₁ threads h
          (with_title-IsTitle id title force now (lookup id threads) refl (t title refl)))

-- Whatever the calls of the store, every thread of it has a title that is not empty and has at most
-- 50 characters, if that held before.
pub ThreadStep-Titled :
    {threads threads' : Dict Thread}
    → Titled threads
    → ThreadStep threads threads'
    → Titled threads'
unfolding create sync_after_run update_title delete
ThreadStep-Titled {threads} h
      (creates thread_id title created_at updated_at kind visible job_id fresh_id now) =
    let id = or_text thread_id fresh_id in
    add_new-Titled threads h id
      (created_thread id title created_at updated_at kind visible job_id now) (lookup id threads)
      (or_default-IsTitle (clean_title (some title) (some default_thread_title))
        (clean_title-IsTitle (some title) (some default_thread_title)))
ThreadStep-Titled {threads} h (syncs thread_id suggested_title now) =
    sync_found-Titled threads h thread_id (clean_title suggested_title none) now
      (lookup thread_id threads) refl (no_default suggested_title)
ThreadStep-Titled {threads} h (renames {threads'} {thread} thread_id title force now e) =
    save_title-Titled threads h thread_id force now (clean_title (some title) none) thread threads'
      (no_default (some title)) e
ThreadStep-Titled {threads} h (deletes thread_id) =
    delete_found-Titled threads h thread_id (lookup thread_id threads)

not_default :
    (t : Thread) → t.title ≢ default_thread_title → (t.title == default_thread_title) ≡ false
not_default t own = elim (Bool-cases (t.title == default_thread_title)) [
  | inl e ↦ absurd (own ((eq_iff t.title default_thread_title).0 e))
  | inr e ↦ e
]

synced-own :
    (o : Option String) (now : String) (t : Thread)
    → (t.title == default_thread_title) ≡ false
    → (synced_thread o now t).title ≡ t.title
synced-own none now t other = refl
synced-own (some s) now t other = rw other refl

-- The table after a renaming; one that is refused changes nothing.
abbrev pub after_update : Dict Thread → Option (Thread × Dict Thread) → Dict Thread
after_update threads none = threads
after_update threads (some (thread, threads')) = threads'

-- The row of thread `k` is there, under the title of `t`.
abbrev pub HasTitle : String → Thread → Dict Thread → Type 0
HasTitle k t threads = (x : Thread) × (lookup k threads ≡ some x) × (x.title ≡ t.title)

save_title-own :
    (threads : Dict Thread) (k : String) (t : Thread) (now : String) (o : Option String)
    → lookup k threads ≡ some t
    → (t.title == default_thread_title) ≡ false
    → HasTitle k t (after_update threads (save_title threads k false now o))
save_title-own threads k t now none e other = (t, e, refl)
save_title-own threads k t now (some s) e other =
    let saved = with_title k s false now (lookup k threads) in
    (
      saved,
      lookup-insert_self k saved threads,
      ap (λ (z : Thread). z.title) (ap (with_title k s false now) e ∙ kept),
    )
  where
    kept : retitled false s now t ≡ t
    kept = rw other refl

-- A title that is not the default is the user's own: the table has the thread under that title
-- after the end of a run and after a renaming without force, accepted or refused.
pub own_title_kept :
    (threads : Dict Thread) (k : String) (t : Thread) (suggested_title : Option String)
    (title now : String)
    → lookup k threads ≡ some t
    → t.title ≢ default_thread_title
    → HasTitle k t (sync_after_run threads k suggested_title now).1
      × HasTitle k t (after_update threads (update_title threads k title false now))
unfolding sync_after_run update_title
own_title_kept threads k t suggested_title title now e own =
    let other : (t.title == default_thread_title) ≡ false = not_default t own in
    let next = clean_title suggested_title none in
    (
      (
        synced_thread next now t,
        ap (λ o. lookup k (sync_found threads k next now o).1) e
            ∙ lookup-insert_self k (synced_thread next now t) threads,
        synced-own next now t other,
      ),
      save_title-own threads k t now (clean_title (some title) none) e other,
    )
