-- ===== src/Common/ReadString.antt =====
-- `ResumableReadString` of src/common.rs: a length-prefixed string, read across cancelled futures.
pub mod Payload
pub mod Resume
pub mod Progress
pub mod Prompt
use deltasync.Base.{
  ℕ, ◌+◌, ◌%◌, ◌^◌, zero, suc, List, [], Option, none, some, take, replicate, ltb, ◌==◌,
  if◌then◌else◌,
}
use deltasync.Bytes.{String, be_read, from_utf8}
use deltasync.Io.{AsyncRead, Error, Outcome, Turn}
use deltasync.Common.Buffer.{resize}
use deltasync.Common.Fill.{Fill, fill}

pub record ReadString : Type 0 where
  pub offset : ℕ
  pub size : ℕ
  pub max_len : ℕ
  pub buf : List ℕ

-- `ResumableReadString::new`
abbrev pub new : ℕ → ReadString
new max_len = record { offset = 0; size = 0; max_len = max_len; buf = [] }

-- `Ok(String::from_utf8(std::mem::take(&mut self.buf))?)`
abbrev pub to_string : Option String → Outcome String
to_string none = Outcome.bail Error.invalid_utf8
to_string (some s) = Outcome.done s

module _ (r : AsyncRead) where
  open r use {Source}

  -- Behind the loop over the payload; `?` and a cancelled `await` leave the object as it is.
  unfoldable pub after_payload : ReadString → Fill Source → Turn ReadString Source String
  after_payload me f = elim f.outcome [
    | Outcome.done _ ↦ record {
      outcome = to_string (from_utf8 f.buf);
      self = record me { offset = 0; size = 0; buf = [] };
      stream = f.stream;
    }
    | Outcome.bail e ↦ record {
      outcome = Outcome.bail e;
      self = record me { offset = f.offset; buf = f.buf };
      stream = f.stream;
    }
    | Outcome.cancelled ↦ record {
      outcome = Outcome.cancelled;
      self = record me { offset = f.offset; buf = f.buf };
      stream = f.stream;
    }
    | Outcome.stuck ↦ record { outcome = Outcome.stuck; self = me; stream = f.stream }
  ]

  -- `while self.offset < (self.size as usize + 8) { … }` and what follows.
  unfoldable pub read_payload : ReadString → Source → Turn ReadString Source String
  read_payload me io = after_payload me (fill r 8 ((me.size + 8) % 2 ^ 64) me.offset me.buf io)

  -- The size is decoded and checked, and the buffer made ready for the payload.
  unfoldable pub start_payload : ReadString → Source → Turn ReadString Source String
  start_payload me io =
      let size = be_read me.size (take 8 me.buf) in
      if ltb me.max_len size
      then record {
        outcome = Outcome.bail (Error.too_long size me.max_len);
        self = record me { size = size };
        stream = io;
      }
      else read_payload (record me { size = size; buf = replicate size 0 }) io

  -- Behind the loop over the header.
  unfoldable pub after_header : ReadString → Fill Source → Turn ReadString Source String
  after_header me f = elim f.outcome [
    | Outcome.done _ ↦ start_payload (record me { offset = f.offset; buf = f.buf }) f.stream
    | Outcome.bail e ↦ record {
      outcome = Outcome.bail e;
      self = record me { offset = f.offset; buf = f.buf };
      stream = f.stream;
    }
    | Outcome.cancelled ↦ record {
      outcome = Outcome.cancelled;
      self = record me { offset = f.offset; buf = f.buf };
      stream = f.stream;
    }
    | Outcome.stuck ↦ record { outcome = Outcome.stuck; self = me; stream = f.stream }
  ]

  -- `ResumableReadString::read_on`
  unfoldable pub read_on : ReadString → Source → Turn ReadString Source String
  read_on me io =
      if me.size == 0
      then after_header me (fill r 0 8 me.offset (resize 8 me.buf) io)
      else read_payload me io

  -- The event loop calls `read_on` again after each call that was cancelled; here `n` times at most.
  unfoldable pub read_again : ℕ → ReadString → Source → Turn ReadString Source String
  read_again zero me io = record { outcome = Outcome.cancelled; self = me; stream = io }
  read_again (suc n) me io =
      let t = read_on me io in
      let later = read_again n t.self t.stream in
      elim t.outcome [ Outcome.cancelled ↦ later | o ↦ t ]
