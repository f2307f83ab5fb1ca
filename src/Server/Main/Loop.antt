-- ===== src/Server/Main/Loop.antt =====
-- The loop around `epoll_wait` against the events alone.
use order_matching_engine.Base.{◌≡◌, refl, ap, ◌∙◌, sym, List, [], ◌∷◌, ◌++◌, append_assoc}
use order_matching_engine.Base.Exec.{ok, ◌>>=◌, bind_assoc, bind_cong, bind_ok}
use order_matching_engine.Server.Network.{Event, Buffers, on_event, on_events}
use order_matching_engine.Server.Main.{
  event_fds, fds_of, Wait, interrupted, wait_error, reported, event_loop,
}

-- The events that are reported before the loop ends.
abbrev pub events_of : List Wait → List Event
events_of [] = []
events_of (interrupted ∷ waits) = events_of waits
events_of (wait_error ∷ waits) = []
events_of (reported events ∷ waits) = events ++ events_of waits

fds_of-append : (xs ys : List Event) → fds_of (xs ++ ys) ≡ fds_of xs ++ fds_of ys
fds_of-append [] ys = refl
fds_of-append (x ∷ xs) ys =
    ap (λ l. event_fds x ++ l) (fds_of-append xs ys) ∙ sym (append_assoc (event_fds x) _ _)

on_events-append :
    (xs ys : List Event) (b : Buffers)
    → on_events (xs ++ ys) b
      ≡ (on_events xs b >>= λ r. on_events ys r.1 >>= λ s. ok (r.0 ++ s.0, s.1))
unfolding on_events
on_events-append [] ys b = sym (bind_ok (on_events ys b))
on_events-append (x ∷ xs) ys b =
    bind_cong (on_event x b) (λ r. rw (on_events-append xs ys r.1) (
      bind_assoc (on_events xs r.1) _ _
      ∙ bind_cong (on_events xs r.1) (λ t.
        bind_assoc (on_events ys t.1) _ _
        ∙ bind_cong (on_events ys t.1)
            (λ s. ap (λ l. ok (l, s.1)) (sym (append_assoc r.0 t.0 s.0))))
      ∙ sym (bind_assoc (on_events xs r.1) _ _)))
    ∙ sym (bind_assoc (on_event x b) _ _)

-- Interruptions and the sizes of the batches make no difference: the loop around `epoll_wait` makes the calls
-- of `processLine`, leaves the buffers and opens and closes the descriptors that the events make that are
-- reported until `running` is cleared or `epoll_wait` fails, one after the other.
pub event_loop-on_events :
    (waits : List Wait) (b : Buffers)
    → event_loop waits b
      ≡ (on_events (events_of waits) b >>= λ r. ok (r.0, fds_of (events_of waits), r.1))
unfolding event_loop on_events
event_loop-on_events [] b = refl
event_loop-on_events (interrupted ∷ waits) b = event_loop-on_events waits b
event_loop-on_events (wait_error ∷ waits) b = refl
event_loop-on_events (reported events ∷ waits) b =
    let later = events_of waits in
    bind_cong (on_events events b) (λ r. rw (event_loop-on_events waits r.1) (
      bind_assoc (on_events later r.1) _ _
      ∙ bind_cong (on_events later r.1)
          (λ s. ap (λ l. ok (r.0 ++ s.0, l, s.1)) (sym (fds_of-append events later)))
      ∙ sym (bind_assoc (on_events later r.1) _ _)))
    ∙ sym (bind_assoc (on_events events b) _ _)
    ∙ ap (λ m. m >>= λ r. ok (r.0, fds_of (events ++ later), r.1))
        (sym (on_events-append events later b))
