-- ===== src/SpscQueue/Safety.antt =====
-- Every interleaving of the two threads is a FIFO: the invariant of the threads, and its consequences.
use order_matching_engine.Base.{
  ℕ, suc, ◌<◌, ◌^◌, ◌≡◌, refl, ap, ◌∙◌, sym, false, some, List, [], ◌∷◌, ◌++◌, arith, eqb, length,
  get_elem?, set, append_assoc,
}
use mathlib.Core.Bool.{false≢true}
use mathlib.Core.Option.{some-injective}
use order_matching_engine.SpscQueue.{SpscQueue, is_full, next}
use order_matching_engine.SpscQueue.Ring.{
  Holds, Holds-write, Holds-publish, Holds-release, is_full_iff, is_empty_iff,
}
use order_matching_engine.SpscQueue.Fifo.{fresh-Holds}
use order_matching_engine.SpscQueue.Threads.{
  Producer, loaded_tail, has_room, written, Consumer, loaded_head, has_item, copied, System,
  initial, Step, load_tail, find_full, find_room, write_slot, store_tail, load_head, find_empty,
  find_item, read_slot, store_head,
}

module _ {A : Type 0} (capacity : ℕ) where
  -- What the producer knows, at each point of `push`.
  abbrev ProducerOk : SpscQueue A → List A → Producer A → Type 0
  ProducerOk q xs Producer.idle = Unit
  ProducerOk q xs (loaded_tail item i) = i ≡ q.tail
  ProducerOk q xs (has_room item i) = (i ≡ q.tail) × (suc (length xs) < capacity)
  ProducerOk q xs (written item i) =
      (i ≡ q.tail) × (suc (length xs) < capacity) × (get_elem? q.buffer q.tail ≡ some item)

  abbrev StartsWith : A → List A → Type 0
  StartsWith x [] = ⊥
  StartsWith x (y ∷ ys) = y ≡ x

  abbrev pub HasItem : List A → Type 0
  HasItem [] = ⊥
  HasItem (_ ∷ _) = Unit

  -- What the consumer knows, at each point of `pop`.
  abbrev ConsumerOk : SpscQueue A → List A → Consumer A → Type 0
  ConsumerOk q xs Consumer.idle = Unit
  ConsumerOk q xs (loaded_head i) = i ≡ q.head
  ConsumerOk q xs (has_item i) = (i ≡ q.head) × HasItem xs
  ConsumerOk q xs (copied item i) = (i ≡ q.head) × StartsWith item xs

  pub record Inv (s : System A) : Type 0 where
    pub items : List A
    pub ring : Holds capacity s.queue items
    pub order : s.pushed ≡ s.popped ++ items
    pub producer_ok : ProducerOk s.queue items s.producer
    pub consumer_ok : ConsumerOk s.queue items s.consumer

  pub initial-Inv :
      (slots : List A)
      → 0 < capacity
      → capacity < 2 ^ 64
      → length slots ≡ capacity
      → Inv (initial slots)
  initial-Inv slots p q e = record {
    items = [];
    ring = fresh-Holds capacity slots p q e;
    order = refl;
    producer_ok = tt;
    consumer_ok = tt;
  }

  -- The other thread's knowledge survives a write, a publication and a release.
  consumer-write :
      (q : SpscQueue A) (xs : List A) (i : ℕ) (v : A) (c : Consumer A)
      → ConsumerOk q xs c
      → ConsumerOk (record q { buffer = set q.buffer i v }) xs c
  consumer-write q xs i v Consumer.idle h = tt
  consumer-write q xs i v (loaded_head j) h = h
  consumer-write q xs i v (has_item j) h = h
  consumer-write q xs i v (copied item j) h = h

  consumer-publish :
      (q : SpscQueue A) (xs : List A) (t : ℕ) (v : A) (c : Consumer A)
      → ConsumerOk q xs c
      → ConsumerOk (record q { tail = t }) (xs ++ v ∷ []) c
  consumer-publish q xs t v Consumer.idle h = tt
  consumer-publish q xs t v (loaded_head j) h = h
  consumer-publish q [] t v (has_item j) h = absurd h.1
  consumer-publish q (x ∷ xs) t v (has_item j) h = h
  consumer-publish q [] t v (copied item j) h = absurd h.1
  consumer-publish q (x ∷ xs) t v (copied item j) h = h

  producer-release :
      (q : SpscQueue A) (x : A) (xs : List A) (i : ℕ) (p : Producer A)
      → ProducerOk q (x ∷ xs) p
      → ProducerOk (record q { head = i }) xs p
  producer-release q x xs i Producer.idle h = tt
  producer-release q x xs i (loaded_tail item j) h = h
  producer-release q x xs i (has_room item j) h = (h.0, omega (arith, h.1))
  producer-release q x xs i (written item j) h = (h.0, omega (arith, h.1), h.2)

  released :
      (s : System A) (item : A) (i : ℕ) (xs : List A)
      → Holds capacity s.queue xs
      → s.pushed ≡ s.popped ++ xs
      → ProducerOk s.queue xs s.producer
      → (i ≡ s.queue.head) × StartsWith item xs
      → Inv (record s {
        consumer = Consumer.idle;
        queue = record s.queue { head = next capacity i };
        popped = s.popped ++ item ∷ [];
      })
  released s item i [] h o p c = absurd c.1
  released s item i (x ∷ xs) h o p c = record {
    items = xs;
    ring = rw c.0 (Holds-release capacity h);
    order = o ∙ rw (append_assoc, c.1);
    producer_ok = producer-release s.queue x xs (next capacity i) s.producer p;
    consumer_ok = tt;
  }

  full_test :
      (q : SpscQueue A) (xs : List A) (i : ℕ)
      → Holds capacity q xs
      → i ≡ q.tail
      → is_full capacity i q.head ≡ false
      → suc (length xs) < capacity
  full_test q xs i h e f =
      let g : is_full capacity q.tail q.head ≡ false = rw e at f in
      let k : eqb (suc (length xs)) capacity ≡ false = sym (is_full_iff capacity h) ∙ g in
      ground (arith, h.room)

  item_test :
      (q : SpscQueue A) (xs : List A) (i : ℕ)
      → Holds capacity q xs
      → i ≡ q.head
      → eqb i q.tail ≡ false
      → HasItem xs
  item_test q [] i h e f =
      let g : eqb q.head q.tail ≡ false = rw e at f in
      absurd (false≢true (sym g ∙ is_empty_iff capacity h))
  item_test q (x ∷ xs) i h e f = tt

  oldest :
      (q : SpscQueue A) (xs : List A) (item : A)
      → Holds capacity q xs
      → HasItem xs
      → get_elem? q.buffer q.head ≡ some item
      → StartsWith item xs
  oldest q [] item h k e = absurd k
  oldest q (x ∷ xs) item h k e = some-injective x item (sym h.items.0 ∙ e)

  pub Step-Inv : {s t : System A} → Inv s → Step capacity s t → Inv t
  Step-Inv {s} v (load_tail item p e) = rw e (record {
    items = v.items;
    ring = v.ring;
    order = v.order;
    producer_ok = refl;
    consumer_ok = v.consumer_ok;
  })
  Step-Inv {s} v (find_full item i p f e) = rw e (record {
    items = v.items;
    ring = v.ring;
    order = v.order;
    producer_ok = tt;
    consumer_ok = v.consumer_ok;
  })
  Step-Inv {s} v (find_room item i p f e) =
      let at : i ≡ s.queue.tail = rw p at v.producer_ok in
      rw e (record {
        items = v.items;
        ring = v.ring;
        order = v.order;
        producer_ok = (at, full_test s.queue v.items i v.ring at f);
        consumer_ok = v.consumer_ok;
      })
  Step-Inv {s} v (write_slot item i p e) =
      let at : (i ≡ s.queue.tail) × (suc (length v.items) < capacity) = rw p at v.producer_ok in
      let w = Holds-write capacity item v.ring in
      rw (e, at.0)
        (record {
          items = v.items;
          ring = w.0;
          order = v.order;
          producer_ok = (refl, at.1, w.1);
          consumer_ok = consumer-write s.queue v.items s.queue.tail item s.consumer v.consumer_ok;
        })
  Step-Inv {s} v (store_tail item i p e) =
      let at : (i ≡ s.queue.tail)
          × (suc (length v.items) < capacity)
          × (get_elem? s.queue.buffer s.queue.tail ≡ some item) =
        rw p at v.producer_ok in
      rw (e, at.0)
        (record {
          items = v.items ++ item ∷ [];
          ring = Holds-publish capacity item v.ring at.1 at.2;
          order = ap (λ l. l ++ item ∷ []) v.order ∙ append_assoc s.popped v.items (item ∷ []);
          producer_ok = tt;
          consumer_ok =
              consumer-publish s.queue v.items (next capacity s.queue.tail) item s.consumer
                v.consumer_ok;
        })
  Step-Inv {s} v (load_head p e) = rw e (record {
    items = v.items;
    ring = v.ring;
    order = v.order;
    producer_ok = v.producer_ok;
    consumer_ok = refl;
  })
  Step-Inv {s} v (find_empty i p f e) = rw e (record {
    items = v.items;
    ring = v.ring;
    order = v.order;
    producer_ok = v.producer_ok;
    consumer_ok = tt;
  })
  Step-Inv {s} v (find_item i p f e) =
      let at : i ≡ s.queue.head = rw p at v.consumer_ok in
      rw e (record {
        items = v.items;
        ring = v.ring;
        order = v.order;
        producer_ok = v.producer_ok;
        consumer_ok = (at, item_test s.queue v.items i v.ring at f);
      })
  Step-Inv {s} v (read_slot item i p f e) =
      let at : (i ≡ s.queue.head) × HasItem v.items = rw p at v.consumer_ok in
      rw e (record {
        items = v.items;
        ring = v.ring;
        order = v.order;
        producer_ok = v.producer_ok;
        consumer_ok = (at.0, oldest s.queue v.items item v.ring at.1 (rw at.0 at f));
      })
  Step-Inv {s} v (store_head item i p e) =
      rw e (released s item i v.items v.ring v.order v.producer_ok (rw p at v.consumer_ok))
