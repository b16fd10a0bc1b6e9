-- ===== src/Tcp/Table/Narrow.antt =====
-- Writes into the table of src/tcp.c that open no connection and change no ends.
use avr_net_enc28j.Base.{ℕ, ◌≡◌, refl, sym, ◌∙◌, false}
use native.Mathlib.Decide.{ℕ_discrete}
use avr_net_enc28j.Net.{Config, TcpConnection, update}
use avr_net_enc28j.Net.Update.{update_at, update_ne}
use avr_net_enc28j.Tcp.Table.{is_free}
use avr_net_enc28j.Tcp.Table.Unique.{SameEnds, IsUnique}

-- The connection `k'` has the ends of `k` and its segment size, and is in use only if `k` is.
pub record Narrows (k k' : TcpConnection) : Type 0 where
  pub ends : SameEnds k k'
  pub size : k'.max_segmet_size ≡ k.max_segmet_size
  pub live : is_free k'.state ≡ false → is_free k.state ≡ false

-- With the ports and addresses left as they are.
pub Narrows-same :
    (k k' : TcpConnection)
    → k.port ≡ k'.port
    → k.remote_port ≡ k'.remote_port
    → k.ip ≡ k'.ip
    → k.mac ≡ k'.mac
    → k'.max_segmet_size ≡ k.max_segmet_size
    → (is_free k'.state ≡ false → is_free k.state ≡ false)
    → Narrows k k'
Narrows-same k k' p r i m size live = record {
  ends = record { ports = p; remote_ports = r; ips = λ j h. rw i refl; macs = λ j h. rw m refl };
  size = size;
  live = live;
}

SameEnds-trans3 :
    {k l m n : TcpConnection} → SameEnds k l → SameEnds l m → SameEnds m n → SameEnds k n
SameEnds-trans3 e f g = record {
  ports = e.ports ∙ f.ports ∙ g.ports;
  remote_ports = e.remote_ports ∙ f.remote_ports ∙ g.remote_ports;
  ips = λ i h. e.ips i h ∙ f.ips i h ∙ g.ips i h;
  macs = λ i h. e.macs i h ∙ f.macs i h ∙ g.macs i h;
}

SameEnds-back : {k l : TcpConnection} → SameEnds k l → SameEnds l k
SameEnds-back e = record {
  ports = sym e.ports;
  remote_ports = sym e.remote_ports;
  ips = λ i h. sym (e.ips i h);
  macs = λ i h. sym (e.macs i h);
}

pub update-Narrows :
    (t : ℕ → TcpConnection) (id : ℕ) (k : TcpConnection)
    → Narrows (t id) k
    → (i : ℕ) → Narrows (t i) (update t id k i)
update-Narrows t id k n i = elim (ℕ_discrete id i) [
  | yes e ↦ let here = update_at t k e in rw (here, ← e) n
  | no ne ↦
      let there = update_ne t k ne in
      rw there (Narrows-same (t i) (t i) refl refl refl refl refl (λ l. l))
]

-- A connection that is written with the same ends, and stays free if it was, keeps the ends of the
-- connections in use apart.
pub update-IsUnique :
    (c : Config) (t : ℕ → TcpConnection) (id : ℕ) (k : TcpConnection)
    → Narrows (t id) k
    → IsUnique c t
    → IsUnique c (update t id k)
update-IsUnique c t id k n u i j li lj fi fj e =
    let a = update-Narrows t id k n i in
    let b = update-Narrows t id k n j in
    u i j li lj (a.live fi) (b.live fj) (SameEnds-trans3 a.ends e (SameEnds-back b.ends))
