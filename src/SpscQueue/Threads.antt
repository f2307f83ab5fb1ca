-- ===== src/SpscQueue/Threads.antt =====
-- The two threads of the queue, an access at a time and in any interleaving: one producer in `push`,
-- one consumer in `pop`. The acquire and release orders of the source make the accesses of one thread
-- appear to the other in program order, which is what an interleaving of atomic accesses says.
use order_matching_engine.Base.{ℕ, ◌≡◌, true, false, some, List, [], ◌∷◌, ◌++◌, eqb, get_elem?, set}
use order_matching_engine.SpscQueue.{SpscQueue, fresh, next, is_full}

-- Where the producer stands in `push`, with `current_tail`.
pub data Producer (A : Type 0) : Type 0 where
  idle : Producer A
  loaded_tail : (item : A) (current_tail : ℕ) → Producer A
  has_room : (item : A) (current_tail : ℕ) → Producer A
  written : (item : A) (current_tail : ℕ) → Producer A

-- Where the consumer stands in `pop`, with `current_head`.
pub data Consumer (A : Type 0) : Type 0 where
  idle : Consumer A
  loaded_head : (current_head : ℕ) → Consumer A
  has_item : (current_head : ℕ) → Consumer A
  copied : (item : A) (current_head : ℕ) → Consumer A

-- `pushed` and `popped` are the items of the calls that returned `true`, in order.
pub record System (A : Type 0) : Type 0 where
  pub queue : SpscQueue A
  pub producer : Producer A
  pub consumer : Consumer A
  pub pushed : List A
  pub popped : List A

abbrev pub initial : {A : Type 0} → List A → System A
initial slots = record {
  queue = fresh slots;
  producer = Producer.idle;
  consumer = Consumer.idle;
  pushed = [];
  popped = [];
}

module _ {A : Type 0} (capacity : ℕ) where
  -- One atomic access of one thread.
  pub data Step (s t : System A) : Type 0 where
    load_tail :
        (item : A)
        → s.producer ≡ Producer.idle
        → t ≡ record s { producer = loaded_tail item s.queue.tail }
        → Step s t
    find_full :
        (item : A) (i : ℕ)
        → s.producer ≡ loaded_tail item i
        → is_full capacity i s.queue.head ≡ true
        → t ≡ record s { producer = Producer.idle }
        → Step s t
    find_room :
        (item : A) (i : ℕ)
        → s.producer ≡ loaded_tail item i
        → is_full capacity i s.queue.head ≡ false
        → t ≡ record s { producer = has_room item i }
        → Step s t
    write_slot :
        (item : A) (i : ℕ)
        → s.producer ≡ has_room item i
        → t ≡ record s {
          producer = written item i;
          queue = record s.queue { buffer = set s.queue.buffer i item };
        }
        → Step s t
    store_tail :
        (item : A) (i : ℕ)
        → s.producer ≡ written item i
        → t ≡ record s {
          producer = Producer.idle;
          queue = record s.queue { tail = next capacity i };
          pushed = s.pushed ++ item ∷ [];
        }
        → Step s t
    load_head :
        s.consumer ≡ Consumer.idle → t ≡ record s { consumer = loaded_head s.queue.head } → Step s t
    find_empty :
        (i : ℕ)
        → s.consumer ≡ loaded_head i
        → eqb i s.queue.tail ≡ true
        → t ≡ record s { consumer = Consumer.idle }
        → Step s t
    find_item :
        (i : ℕ)
        → s.consumer ≡ loaded_head i
        → eqb i s.queue.tail ≡ false
        → t ≡ record s { consumer = has_item i }
        → Step s t
    read_slot :
        (item : A) (i : ℕ)
        → s.consumer ≡ has_item i
        → get_elem? s.queue.buffer i ≡ some item
        → t ≡ record s { consumer = copied item i }
        → Step s t
    store_head :
        (item : A) (i : ℕ)
        → s.consumer ≡ copied item i
        → t ≡ record s {
          consumer = Consumer.idle;
          queue = record s.queue { head = next capacity i };
          popped = s.popped ++ item ∷ [];
        }
        → Step s t

  pub data Reach (s : System A) : System A → Type 0 where
    here : Reach s s
    later : {t u : System A} → Reach s t → Step t u → Reach s u
