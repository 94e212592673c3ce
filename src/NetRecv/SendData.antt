-- ===== src/NetRecv/SendData.antt =====
-- What `send_data` (netpool/outclass/CNetRecv.cpp) does to an asynchronous connection.
use netpool.NetRecv.{NetRecv}
