-- ===== src/TcpServer/Serving.antt =====
-- ServerTCP/server_tcp.c: which clients a server has, in which order.
use chat_project.DLinkedList.{size}
use chat_project.DLinkedList.Walk.{size-length}
use chat_project.Prelude.{
  ◌<◌, ◌^◌, ◌∙◌, ap, length, refl, ℕ, zero, suc, ◌≡◌, arith, false, Option, none, some, List, [],
  ◌∷◌, ok, ◌==◌, All,
}
use chat_project.DLinkedList.Path.{Apart, Distinct}
use chat_project.DLinkedList.Shape.{Cell, start, IsList, ==_swap}
use chat_project.DLinkedList.{tail_of}
use chat_project.ListItr.{begin, end_of}
use chat_project.ListItr.Walk.{begin-ok, end_of-ok}
use chat_project.TcpServer.{ClientData, Clients, Server, put_client, client_at, free_client}

-- A connected client: the node and the item of the list, and the block that the item points to.
pub record Entry (T : Type 0) : Type 0 where
  pub cell : Cell
  pub client : ClientData T

module _ {T : Type 0} where
  abbrev pub cells_of : List (Entry T) → List Cell
  cells_of [] = []
  cells_of (e ∷ entries) = e.cell ∷ cells_of entries

  abbrev pub blocks_of : List (Entry T) → List ℕ
  blocks_of [] = []
  blocks_of (e ∷ entries) = e.cell.item ∷ blocks_of entries

  abbrev pub Live : Clients T → List (Entry T) → Type 0
  Live clients = All (λ (e : Entry T). clients e.cell.item ≡ some e.client)

  -- An item that is neither NULL nor what the data of the tail sentinel happens to be.
  abbrev pub Unlike : ℕ → List (Entry T) → Type 0
  Unlike mark =
      All (λ (e : Entry T). ((e.cell.item == 0) ≡ false) × ((e.cell.item == mark) ≡ false))

-- The server has these clients, in this order, in the list at `list`; each has a block of its own.
pub record Serves {W B T : Type 0} (s : Server W B T) (list mark : ℕ) (entries : List (Entry T))
    : Type 0 where
  pub at_list : s.list ≡ some list
  pub nodes : IsList s.nodes list mark (cells_of entries)
  pub live : Live s.clients entries
  pub own : Distinct (blocks_of entries)
  pub unlike : Unlike mark entries

module _ {T : Type 0} where
  -- A write to one block leaves the others.
  pub Live-put :
      (clients : Clients T) (a : ℕ) (block : Option (ClientData T)) (entries : List (Entry T))
      → Apart a (blocks_of entries)
      → Live clients entries
      → Live (put_client clients a block) entries
  unfolding put_client
  Live-put clients a block [] apart live = tt
  Live-put clients a block (e ∷ entries) (away, apart) (h, live) =
      (rw away h, Live-put clients a block entries apart live)

  pub client_at-ok :
      (clients : Clients T) (a : ℕ) {client : ClientData T}
      → clients a ≡ some client
      → client_at clients a ≡ ok client
  unfolding client_at
  client_at-ok clients a h = ground (arith, h)

  pub free_client-ok :
      (clients : Clients T) (a : ℕ) {client : ClientData T}
      → (a == 0) ≡ false
      → clients a ≡ some client
      → free_client clients a ≡ ok (put_client clients a none)
  unfolding free_client
  free_client-ok clients zero away h = ground (arith, away)
  free_client-ok clients (suc a) away h = ground (arith, h)

module _ {T : Type 0} where
  length-cells_of : (entries : List (Entry T)) → length (cells_of entries) ≡ length entries
  length-cells_of [] = refl
  length-cells_of (e ∷ entries) = ap suc (length-cells_of entries)

  -- Every block that one of the clients has is given back, and no other.
  pub record BlocksFreed (clients clients' : Clients T) (entries : List (Entry T)) : Type 0 where
    pub gone : All (λ (e : Entry T). clients' e.cell.item ≡ none) entries
    pub kept : (a : ℕ) → Apart a (blocks_of entries) → clients' a ≡ clients a

  pub BlocksFreed-cons :
      (clients clients' : Clients T) (e : Entry T) (entries : List (Entry T))
      → Apart e.cell.item (blocks_of entries)
      → BlocksFreed (put_client clients e.cell.item none) clients' entries
      → BlocksFreed clients clients' (e ∷ entries)
  unfolding put_client
  BlocksFreed-cons clients clients' e entries apart w = record {
    gone = (w.kept e.cell.item apart ∙ ground arith, w.gone);
    kept = λ a (away, rest). w.kept a rest ∙ rw (==_swap e.cell.item a away) refl;
  }

module _ {W B T : Type 0} where
  pub begin-Serves :
      (s : Server W B T) (list mark : ℕ) (entries : List (Entry T))
      → Serves s list mark entries
      → begin s.nodes s.list ≡ ok (some (start (tail_of list) (cells_of entries)))
  begin-Serves s list mark entries w =
      rw w.at_list (begin-ok s.nodes list mark (cells_of entries) w.nodes)

  pub end_of-Serves :
      (s : Server W B T) (list mark : ℕ) (entries : List (Entry T))
      → Serves s list mark entries
      → end_of s.nodes s.list ≡ ok (some (tail_of list))
  end_of-Serves s list mark entries w =
      rw w.at_list (end_of-ok s.nodes list mark (cells_of entries) w.nodes)

  pub size-Serves :
      (fuel : ℕ) (s : Server W B T) (list mark : ℕ) (entries : List (Entry T))
      → Serves s list mark entries
      → length entries < fuel
      → length entries < 2 ^ 31
      → size fuel s.nodes s.list ≡ ok (length entries)
  size-Serves fuel s list mark entries w enough few =
      let cells = cells_of entries in
      let same = length-cells_of entries in
      let counted : size fuel s.nodes (some list) ≡ ok (length cells) =
        size-length fuel s.nodes list mark cells w.nodes (rw same enough) (rw same few) in
      rw w.at_list (counted ∙ ap ok same)
