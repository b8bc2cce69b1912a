-- ===== src/Tests/Queue.antt =====
-- src/source.c and src/format.c: a queue of two buffers and its listeners.
use checkedc_icecast.Source.Listeners.{client_set_queue}
use checkedc_icecast.Base.{ℕ, ◌≡◌, refl, true, [], ◌∷◌, Option, none, some, arith, length, ap}
use checkedc_icecast.Base.Number.{negsuc}
use checkedc_icecast.Source.Mounts.{Client, check_other}
use checkedc_icecast.Source.Queue.{
  points_to, Refbuf, Stream, take_buffer, reduce_queue, drop_behind, format_advance_queue,
  check_burst, append_buffer, first_point, move_burst, from, refbuf_addref, update, at_address,
  refbuf_release, sub_uint, points_to, advance_in, set_queue,
}
use checkedc_icecast.Source.Queue.Chain.{Absent}
use checkedc_icecast.Source.Queue.Burst.{IsQueue, IsNew}
use checkedc_icecast.Source.Queue.Trim.{IsReduced, reduce_queue-IsReduced}
use checkedc_icecast.Source.Queue.Steps.{
  arrives, joins, Reached, begun, next, Reached-IsQueue, round-frees,
}

abbrev empty_stream : Stream
empty_stream = record {
  stream_data = [];
  burst_point = none;
  burst_offset = 0;
  burst_size = 10;
  queue_size = 0;
  queue_size_limit = 15;
  running = true;
}

abbrev page : ℕ → ℕ → Refbuf
page address len = record { address = address; len = len; count = 1; sync_point = true }

abbrev listener : Client
listener = record {
  id = 1;
  username = none;
  check_buffer = check_other;
  refbuf = some 100;
  pos = 8;
  intro_offset = negsuc 0;
}

-- The first page lies before the burst point, and the listener still reads it.
abbrev two_pages : Stream
two_pages = record {
  stream_data =
      record { address = 100; len = 8; count = 2; sync_point = true }
      ∷ record { address = 200; len = 9; count = 2; sync_point = true }
      ∷ [];
  burst_point = some 200;
  burst_offset = 9;
  burst_size = 10;
  queue_size = 17;
  queue_size_limit = 15;
  running = true;
}

two_pages_taken :
    take_buffer (take_buffer empty_stream (page 100 8)) (page 200 9) ≡ record two_pages {
      stream_data =
          record { address = 100; len = 8; count = 1; sync_point = true }
          ∷ record { address = 200; len = 9; count = 2; sync_point = true }
          ∷ [];
    }
unfolding take_buffer check_burst append_buffer first_point move_burst from refbuf_addref update
    at_address refbuf_release sub_uint
two_pages_taken = refl

two_pages-IsQueue : IsQueue two_pages (listener ∷ [])
unfolding points_to
two_pages-IsQueue = record {
  old = record { address = 100; len = 8; count = 2; sync_point = true } ∷ [];
  burst = record { address = 200; len = 9; count = 2; sync_point = true } ∷ [];
  parts = record {
    chain = refl;
    point = refl;
    old_counts = (refl, tt);
    burst_counts = (refl, tt);
    distinct = (((λ e. omega (arith, e)), tt), (tt, tt));
    queue_total = refl;
    burst_total = refl;
    kept = λ e. absurd (omega (arith, ap length e));
  };
}

page-IsNew : IsNew two_pages (listener ∷ []) (page 300 5)
unfolding points_to
page-IsNew = record {
  once = refl;
  unknown = ((λ e. omega (arith, e)), ((λ e. omega (arith, e)), tt));
  unread = refl;
}

reduce_queue-IsReduced_example : IsReduced two_pages (reduce_queue two_pages) (listener ∷ [])
reduce_queue-IsReduced_example =
    reduce_queue-IsReduced two_pages (listener ∷ []) (omega arith) two_pages-IsQueue

round-frees_example :
    Absent 100 (reduce_queue (drop_behind true two_pages (listener ∷ [])).0).stream_data
round-frees_example =
    round-frees two_pages (listener ∷ []) 100 (omega arith) two_pages-IsQueue refl
      (λ e. omega (arith, ap some_or e))
  where
    some_or : Option ℕ → ℕ
    some_or none = 0
    some_or (some a) = a

advanced : (format_advance_queue two_pages listener).1.refbuf ≡ some 200
unfolding format_advance_queue advance_in from set_queue client_set_queue
advanced = refl

reached : Reached (take_buffer empty_stream (page 500 8)) (listener ∷ [])
unfolding points_to
reached =
    next (next (begun refl refl refl refl) (joins [] listener [] (tt)))
      (arrives (page 500 8) (record { once = refl; unknown = tt; unread = refl }))

Reached-IsQueue_example : IsQueue (take_buffer empty_stream (page 500 8)) (listener ∷ [])
Reached-IsQueue_example = Reached-IsQueue _ _ reached
