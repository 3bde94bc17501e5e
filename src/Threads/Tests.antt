-- ===== src/Threads/Tests.antt =====
-- A conversation that the user has named, and the theorems at it.
use wotbot.Base.{◌≡◌, refl, true, false, none, some, [], ◌∷◌, arith, eq_iff}
use wotbot.Base.Dict.{Dict, lookup, insert}
use wotbot.Base.Text.{strip}
use wotbot.Jobs.Records.{Thread, chat}
use wotbot.Threads.{
  default_thread_title, named_thread, clean_title, create, sync_after_run, update_title,
}
use wotbot.Threads.Titles.{
  Titled, creates, syncs, ThreadStep-Titled, HasTitle, after_update, own_title_kept,
}

abbrev own : Thread
own = named_thread "t1" "Greenhouse" "2026-01-01T00:00:00.000Z"

abbrev threads : Dict Thread
threads = ("t1", own) ∷ []

untitled-clean : clean_title (some "  How warm is it? ") none ≡ some "How warm is it?"
unfolding clean_title strip
untitled-clean = refl

no_threads-Titled : Titled []
unfolding lookup
no_threads-Titled k t e = cc

-- A new conversation, which has the default title until its first run ends.
abbrev new_thread : Dict Thread
unfolding create
new_thread = (create [] (some "t1") " " none none chat true none "id" "now").1

abbrev renamed_thread : Dict Thread
unfolding create sync_after_run
renamed_thread = (sync_after_run new_thread "t1" (some "How warm is it?") "later").1

renamed : (t : Thread) × (lookup "t1" renamed_thread ≡ some t) × (t.title ≡ "How warm is it?")
unfolding create sync_after_run lookup insert strip
renamed = (_, refl, refl)

new_thread-Titled : Titled new_thread
unfolding create
new_thread-Titled =
    ThreadStep-Titled no_threads-Titled
      (creates (some "t1") " " none none chat true none "id" "now")

ThreadStep-Titled_example : Titled renamed_thread
unfolding create sync_after_run
ThreadStep-Titled_example =
    ThreadStep-Titled new_thread-Titled (syncs "t1" (some "How warm is it?") "later")

own_title_kept_example :
    HasTitle "t1" own (sync_after_run threads "t1" (some "Hello") "now").1
    × HasTitle "t1" own (after_update threads (update_title threads "t1" "Kitchen" false "now"))
unfolding lookup
own_title_kept_example =
    own_title_kept threads "t1" own (some "Hello") "Kitchen" "now" refl
      (λ e. ground (arith, (eq_iff own.title default_thread_title).1 e))
