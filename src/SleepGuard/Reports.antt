-- ===== src/SleepGuard/Reports.antt =====
-- What the guard logs, and what it makes of callbacks that come too late and of Steam's answers.
use bazzite_k.Common.{
  arith, ℕ, ◌≡◌, ◌≢◌, inl, inr, Bool, true, false, Option, none, some, List, [], ◌∷◌, ◌++◌, String,
  Result, ok, err, refl, Bool-cases, if◌then◌else◌, text_eq_iff, ◌∙◌,
}
use bazzite_k.Common.Json.{Json}
use bazzite_k.SleepGuard.{
  Guard, Effect, Outcome, new, sync, timeout, targets, connected, open_socket, end_by, take_socket,
  message, finish, is_stale, is_news, close_open,
}
use bazzite_k.SleepGuard.World.{Callback, Answers, run, World, after, start_world, Step, Reach}
use bazzite_k.SleepGuard.Invariant.{timeout_stale, timeout_fresh}

-- The last report among these calls, after one that came before.
abbrev pub last_logged : Option String → List Effect → Option String
last_logged last [] = last
last_logged last (Effect.info r ∷ es) = last_logged (some r) es
last_logged last (e ∷ es) = last_logged last es

-- No report among these calls is the one before it.
abbrev pub NoRepeat : Option String → List Effect → Type 0
NoRepeat last [] = Unit
NoRepeat last (Effect.info r ∷ es) = (last ≢ some r) × NoRepeat (some r) es
NoRepeat last (e ∷ es) = NoRepeat last es

last_logged-append :
    (l : Option String) (es fs : List Effect)
    → last_logged l (es ++ fs) ≡ last_logged (last_logged l es) fs
last_logged-append l [] fs = refl
last_logged-append l (Effect.info r ∷ es) fs = last_logged-append (some r) es fs
last_logged-append l (e ∷ es) fs = last_logged-append l es fs

NoRepeat-append :
    (l : Option String) (es fs : List Effect)
    → NoRepeat l es
    → NoRepeat (last_logged l es) fs
    → NoRepeat l (es ++ fs)
NoRepeat-append l [] fs h k = k
NoRepeat-append l (Effect.info r ∷ es) fs h k = (h.0, NoRepeat-append (some r) es fs h.1 k)
NoRepeat-append l (Effect.http_get n ∷ es) fs h k = NoRepeat-append l es fs h k
NoRepeat-append l (e ∷ es) fs h k = NoRepeat-append l es fs h k

-- A handler logs news only, and keeps what it logged last.
abbrev LogsNews : Guard → Outcome → Type 0
LogsNews g (g', es) = NoRepeat g.last_report es × (last_logged g.last_report es ≡ g'.last_report)

is_news-ne : (r : String) (l : Option String) → is_news r l ≡ true → l ≢ some r
unfolding is_news
is_news-ne r none h = λ e. cc
is_news-ne r (some l) h = ground (arith, text_eq_iff r l)

close_open-LogsNothing :
    (o : ℕ → Bool) (ws : Option ℕ) (l : Option String)
    → NoRepeat l (close_open o ws) × (last_logged l (close_open o ws) ≡ l)
unfolding close_open
close_open-LogsNothing o none l = (tt, refl)
close_open-LogsNothing o (some ws) l = elim (Bool-cases (o ws)) [
  | inl b ↦ rw b (tt, refl)
  | inr b ↦ rw b (tt, refl)
]

news-LogsNews :
    (r : String) (l : Option String) (again : Bool)
    → let es : List Effect =
        (if is_news r l then Effect.info r ∷ [] else [])
        ++ (if again then Effect.idle_sync ∷ [] else []) in
      NoRepeat l es × (last_logged l es ≡ (if is_news r l then some r else l))
news-LogsNews r l again = elim (Bool-cases (is_news r l)) [
  | inl n ↦
      rw n
        (elim again
          as (λ b.
            NoRepeat l (Effect.info r ∷ (if b then Effect.idle_sync ∷ [] else []))
            × (last_logged l (Effect.info r ∷ (if b then Effect.idle_sync ∷ [] else []))
                ≡ some r)) [
                  | true ↦ ((is_news-ne r l n, tt), refl)
                  | false ↦ ((is_news-ne r l n, tt), refl)
                ])
  | inr n ↦
      rw n
        (elim again
          as (λ b.
            NoRepeat l (if b then Effect.idle_sync ∷ [] else [])
            × (last_logged l (if b then Effect.idle_sync ∷ [] else []) ≡ l)) [
              | true ↦ (tt, refl)
              | false ↦ (tt, refl)
            ])
]

finish-LogsNews : (o : ℕ → Bool) (n : ℕ) (r : String) (g : Guard) → LogsNews g (finish o n r g)
unfolding finish
finish-LogsNews o n r g = elim (Bool-cases (is_stale n g)) [
  | inl s ↦ rw s (tt, refl)
  | inr f ↦ rw f (
      let l = g.last_report in
      let (quiet, same) = close_open-LogsNothing o g.socket l in
      let news = news-LogsNews r l g.resync in
      (
        NoRepeat-append l (close_open o g.socket) _ quiet (rw same news.0),
        last_logged-append l (close_open o g.socket) _ ∙ rw same news.1,
      ))
]

open_socket-LogsNews :
    (o : ℕ → Bool) (n : ℕ) (g : Guard) (r : Result Json) → LogsNews g (open_socket o n g r)
unfolding open_socket
open_socket-LogsNews o n g (ok url) = (tt, refl)
open_socket-LogsNews o n g (err e) = finish-LogsNews o n _ g

end_by-LogsNews :
    (o : ℕ → Bool) (n : ℕ) (g : Guard) (r : Result (Option String)) → LogsNews g (end_by o n g r)
unfolding end_by
end_by-LogsNews o n g (ok none) = (tt, refl)
end_by-LogsNews o n g (ok (some r)) = finish-LogsNews o n r g
end_by-LogsNews o n g (err e) = finish-LogsNews o n e g

take_socket-LogsNews :
    (o : ℕ → Bool) (ws : ℕ) (i : Result (List ℕ)) (n : ℕ) (g : Guard)
    → LogsNews g (take_socket o ws i n g)
unfolding take_socket
take_socket-LogsNews o ws (ok value) n g = (tt, refl)
take_socket-LogsNews o ws (err e) n g = finish-LogsNews o n e (record g { socket = some ws })

-- The test at the head of a handler, which leaves a stale one.
guarded-LogsNews :
    (b : Bool) (g : Guard) (es : List Effect) (r : Outcome)
    → LogsNews g (g, es)
    → LogsNews g r
    → LogsNews g (if b then (g, es) else r)
guarded-LogsNews true g es r h k = h
guarded-LogsNews false g es r h k = k

connected-LogsNews :
    (o : ℕ → Bool) (r : Result ℕ) (i : Result (List ℕ)) (n : ℕ) (g : Guard)
    → LogsNews g (connected o r i n g)
unfolding connected
connected-LogsNews o (err e) i n g = finish-LogsNews o n e g
connected-LogsNews o (ok ws) i n g =
    guarded-LogsNews (is_stale n g) g _ _ (tt, refl) (take_socket-LogsNews o ws i n g)

timeout-LogsNews : (o : ℕ → Bool) (n : ℕ) (g : Guard) → LogsNews g (timeout o n g)
timeout-LogsNews o n g = elim (Bool-cases (is_stale n g)) [
  | inl s ↦ rw (timeout_stale o n g s) (tt, refl)
  | inr f ↦ rw (timeout_fresh o n g f) (finish-LogsNews o n _ g)
]

sync-LogsNews : (g : Guard) → LogsNews g (sync g)
unfolding sync
sync-LogsNews g = elim (Bool-cases g.busy) [ inl b ↦ rw b (tt, refl) | inr b ↦ rw b (tt, refl) ]

run-LogsNews : (c : Callback) (a : Answers) (g : Guard) → LogsNews g (run c a g)
unfolding run targets message
run-LogsNews (Callback.http_reply n) a g =
    guarded-LogsNews (is_stale n g) g [] _ (tt, refl) (open_socket-LogsNews a.is_open n g _)
run-LogsNews (Callback.opened n) a g = connected-LogsNews a.is_open a.socket a.inhibited n g
run-LogsNews (Callback.timer n) a g = timeout-LogsNews a.is_open n g
run-LogsNews Callback.idle a g = sync-LogsNews g
run-LogsNews (Callback.on_message ws n) a g =
    guarded-LogsNews (is_stale n g) g [] _ (tt, refl) (end_by-LogsNews a.is_open n g _)
run-LogsNews (Callback.on_error ws n) a g = finish-LogsNews a.is_open n a.ws_error g

-- The whole log, after these calls.
abbrev pub IsLog : World → Type 0
IsLog w = NoRepeat none w.trace × (last_logged none w.trace ≡ w.guard.last_report)

after-IsLog :
    (w : World) (cs : List Callback) (r : Outcome)
    → LogsNews w.guard r
    → IsLog w
    → IsLog (after cs w.trace r)
unfolding after
after-IsLog w cs r news log = (
  NoRepeat-append none w.trace r.1 log.0 (rw log.1 news.0),
  last_logged-append none w.trace r.1 ∙ rw log.1 news.1,
)

-- In every world that the main loop can reach, no line of the log repeats the line before it, and
-- the guard remembers the last line.
pub Reach-IsLog : (w : World) → Reach start_world w → IsLog w
unfolding start_world new
Reach-IsLog w Reach.here = (tt, refl)
Reach-IsLog w (Reach.next {u = u} r (Step.tick e)) =
    rw e (after-IsLog u u.pending _ (sync-LogsNews u.guard) (Reach-IsLog u r))
Reach-IsLog w (Reach.next {u = u} r (Step.changed e)) =
    rw e (after-IsLog u u.pending _ (sync-LogsNews u.guard) (Reach-IsLog u r))
Reach-IsLog w (Reach.next {u = u} r (Step.fire before later c a p e)) =
    rw e (after-IsLog u _ _ (run-LogsNews c a u.guard) (Reach-IsLog u r))
