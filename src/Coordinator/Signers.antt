-- ===== src/Coordinator/Signers.antt =====
-- What two servers make of one sign request.
use mpc_server.Group
