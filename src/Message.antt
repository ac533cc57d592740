-- ===== src/Message.antt =====
-- include/tuple_t.hpp: the message between the emitter and the workers of the PLQ stage.
-- Timestamps are whole microseconds: a double holds each of them exactly below 2^53.
pub mod Wire
use elastic_ppq.Common.{ℕ}
use elastic_ppq.Double.{Double}

-- `enum type_msg_t`
pub data Kind : Type 0 where
  unspecified regular flush new_inst punct lull emptypane ends : Kind

-- `class tuple_t`. Of the array `d` the code reads the entries below DIM only.
pub record Tuple (W : Type 0) : Type 0 where
  pub kind : Kind
  pub ref_counter : ℕ
  pub punc_value : ℕ
  pub no_instances : ℕ
  pub pane_id : ℕ
  pub d : ℕ → W
  pub app_ts : ℕ
  pub gen_ts : ℕ
  pub arrival_ticks : ℕ

module _ {W : Type 0} ⦃o : Double W⦄ where
  -- the empty constructor
  unfoldable pub empty : Tuple W
  empty = record {
    kind = unspecified;
    ref_counter = 0;
    punc_value = 0;
    no_instances = 0;
    pane_id = 0;
    d = λ _. o.nought;
    app_ts = 0;
    gen_ts = 0;
    arrival_ticks = 0;
  }

module _ {W : Type 0} where
  -- the methods that make a message of another kind out of a tuple
  unfoldable pub create_punctuation : Tuple W → ℕ → ℕ → ℕ → Tuple W
  create_punctuation t ts p_id nw = record t {
    kind = punct;
    punc_value = ts;
    pane_id = p_id;
    ref_counter = nw;
  }

  unfoldable pub create_end : Tuple W → ℕ → Tuple W
  create_end t nw = record t { kind = ends; ref_counter = nw }

  unfoldable pub create_newinst : Tuple W → ℕ → ℕ → ℕ → Tuple W
  create_newinst t p_id no_inst nw = record t {
    kind = new_inst;
    pane_id = p_id;
    no_instances = no_inst;
    ref_counter = nw;
  }

  unfoldable pub create_flush : Tuple W → ℕ → ℕ → Tuple W
  create_flush t nw p_id = record t { kind = flush; pane_id = p_id; ref_counter = nw }

  unfoldable pub create_lull : Tuple W → ℕ → Tuple W
  create_lull t p_id = record t { kind = lull; pane_id = p_id; no_instances = 1 }

  unfoldable pub create_emptypane : Tuple W → ℕ → ℕ → Tuple W
  create_emptypane t p_id no_inst = record t {
    kind = emptypane;
    pane_id = p_id;
    no_instances = no_inst;
  }
