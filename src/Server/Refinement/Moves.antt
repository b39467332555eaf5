-- ===== src/Server/Refinement/Moves.antt =====
-- The moves that the specification allows.
use ftnl_backend_api_rs.Base.{true, false, refl, inl, inr}
use ftnl_backend_api_rs.Protocol.{
  TunnelStatus, waiting, connected, transferring, complete, cancelled,
}
use ftnl_backend_api_rs.Protocol.Quint
use ftnl_backend_api_rs.Protocol.Quint.{
  SpecState, Element, one, two, Step, Reach, init, insert, none_of,
}
use ftnl_backend_api_rs.Server.Refinement.{Control, control_of_spec, Allows}

abbrev pub at_waiting : Control
at_waiting = record { phase = waiting; pairing_available = true; phone_capability_issued = false }

abbrev pub at : TunnelStatus → Control
at phase = record { phase = phase; pairing_available = false; phone_capability_issued = true }

abbrev pub at_cancelled : Control
at_cancelled = record {
  phase = cancelled;
  pairing_available = true;
  phone_capability_issued = false;
}

abbrev paired : SpecState
paired = record init {
  phase = connected;
  pairing_available = false;
  phone_capability_issued = true;
}

abbrev declared : SpecState
declared = record paired { declared_files = insert one none_of }

abbrev uploaded : SpecState
uploaded = record declared { phase = transferring; available_files = insert one none_of }

abbrev done : SpecState
done = record uploaded {
  phase = complete;
  downloaded_files = insert one none_of;
  active_tickets = none_of;
}

abbrev closed : SpecState → SpecState
closed s = record s { phase = cancelled; active_tickets = none_of }

init-Reach : Reach init
init-Reach = Reach.start init refl

pair : Step init paired
unfolding init
pair = Quint.claim refl refl refl refl

declare : Step paired declared
unfolding init
declare = Quint.declare_file one (inl refl) refl refl refl

upload : Step declared uploaded
unfolding init
upload = Quint.finish_upload one (inl refl) refl refl refl refl

download : Step uploaded done
unfolding init
download = Quint.download_last one (inr refl) refl refl refl refl

paired-Reach : Reach paired
paired-Reach = Reach.next init-Reach pair

declared-Reach : Reach declared
declared-Reach = Reach.next paired-Reach declare

uploaded-Reach : Reach uploaded
uploaded-Reach = Reach.next declared-Reach upload

idles : (s : SpecState) → Reach s → Allows (control_of_spec s) (control_of_spec s)
idles s r = record {
  before = s;
  after = s;
  reached = r;
  step = Quint.idle refl;
  from = refl;
  to = refl;
}

pub claims : Allows at_waiting (at connected)
unfolding init
claims = record {
  before = init;
  after = paired;
  reached = init-Reach;
  step = pair;
  from = refl;
  to = refl;
}

pub transfers : Allows (at connected) (at transferring)
unfolding init
transfers = record {
  before = declared;
  after = uploaded;
  reached = declared-Reach;
  step = upload;
  from = refl;
  to = refl;
}

pub completes : Allows (at transferring) (at complete)
unfolding init
completes = record {
  before = uploaded;
  after = done;
  reached = uploaded-Reach;
  step = download;
  from = refl;
  to = refl;
}

pub waiting_cancels : Allows at_waiting at_cancelled
unfolding init
waiting_cancels = record {
  before = init;
  after = closed init;
  reached = init-Reach;
  step = Quint.cancel (inl refl) refl;
  from = refl;
  to = refl;
}

pub connected_cancels : Allows (at connected) (at cancelled)
unfolding init
connected_cancels = record {
  before = paired;
  after = closed paired;
  reached = paired-Reach;
  step = Quint.cancel (inr (inl refl)) refl;
  from = refl;
  to = refl;
}

pub transferring_cancels : Allows (at transferring) (at cancelled)
unfolding init
transferring_cancels = record {
  before = uploaded;
  after = closed uploaded;
  reached = uploaded-Reach;
  step = Quint.cancel (inr (inr refl)) refl;
  from = refl;
  to = refl;
}

-- The control states that are reached, each of which may stay as it is.
pub waiting_stays : Allows at_waiting at_waiting
unfolding init
waiting_stays = idles init init-Reach

pub connected_stays : Allows (at connected) (at connected)
unfolding init
connected_stays = idles paired paired-Reach

pub transferring_stays : Allows (at transferring) (at transferring)
unfolding init
transferring_stays = idles uploaded uploaded-Reach

pub complete_stays : Allows (at complete) (at complete)
unfolding init
complete_stays = idles done (Reach.next uploaded-Reach download)

pub cancelled_stays : Allows (at cancelled) (at cancelled)
unfolding init
cancelled_stays =
    idles (closed paired) (Reach.next paired-Reach (Quint.cancel (inr (inl refl)) refl))

pub unpaired_stays : Allows at_cancelled at_cancelled
unfolding init
unpaired_stays = idles (closed init) (Reach.next init-Reach (Quint.cancel (inl refl) refl))
