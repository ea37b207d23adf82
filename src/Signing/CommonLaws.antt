-- ===== src/Signing/CommonLaws.antt =====
-- workers/escri.py, `_process_common_job`: what a signer that is marked as signed may rely on.
